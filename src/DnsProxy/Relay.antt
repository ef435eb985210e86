-- ===== src/DnsProxy/Relay.antt =====
-- The thread that `handle_tcp` starts: a poller with two rings, between a client and the name server.
use koho.Prelude.{
  ℕ, ◌*◌, ◌&&◌, Bool, true, Option, some, List, [], ◌∷◌, ◌++◌, ltb, if◌then◌else◌, Outcome, ok,
  running, M, ◌>>=◌, ◌>>>◌, catching,
}
use koho.FileDescriptor.{FileDescriptor, Os, Sink}
use koho.ByteStreamQueue
use koho.ByteStreamQueue.{
  ByteStreamQueue, eof, push, pop, space_available, non_empty, contiguous_space_to_push,
}
use koho.ByteStreamQueue.Stream.{brought}
use koho.Address.{Address}
use koho.Socket.{Net}
use koho.Epoller.{
  Direction, incoming, outgoing, ResultType, continue, cancel, PollResult, poll_success,
  poll_timeout, poll_exit,
}
use koho.Poller.{Poller, Action, PollOs, add_action, poll}
use koho.DnsProxy.{connect_server}

-- BUFFER_SIZE of dns_proxy.cc
unfoldable pub ring_size : ℕ
ring_size = 1024 * 1024

-- the four callbacks
pub data Task : Type 0 where
  read_server read_client write_server write_client : Task

-- Both sockets with all that the kernel has taken from them, and with all that it has brought.
pub record Relay : Type 0 where
  pub poller : Poller Task
  pub client : Sink
  pub dns_server : Sink
  pub from_client : ByteStreamQueue
  pub from_server : ByteStreamQueue
  pub client_received : List ℕ
  pub server_received : List ℕ

-- what `push` reads, if it comes to its read
abbrev pub pushed : Os → ByteStreamQueue → FileDescriptor → List ℕ
pushed os q fd =
    if space_available q && ltb 0 (contiguous_space_to_push q) then brought os q fd else []

abbrev pub result_of : ByteStreamQueue.Result → ResultType
result_of r = if eof r then cancel else continue

-- `from_server.push( dns_server )`, and the other three calls
unfoldable pub push_server : Os → M Relay ByteStreamQueue.Result
unfolding push space_available
push_server os s =
    let (r, (q, fd)) = push os (s.from_server, s.dns_server.descriptor) in
    (
      r,
      record s {
        from_server = q;
        dns_server = record s.dns_server { descriptor = fd };
        server_received = s.server_received ++ pushed os s.from_server s.dns_server.descriptor;
      },
    )

unfoldable pub push_client : Os → M Relay ByteStreamQueue.Result
unfolding push space_available
push_client os s =
    let (r, (q, fd)) = push os (s.from_client, s.client.descriptor) in
    (
      r,
      record s {
        from_client = q;
        client = record s.client { descriptor = fd };
        client_received = s.client_received ++ pushed os s.from_client s.client.descriptor;
      },
    )

unfoldable pub pop_server : Os → M Relay (Unit {0})
unfolding pop
pop_server os s =
    let (r, (q, sink)) = pop os (s.from_client, s.dns_server) in
    (r, record s { from_client = q; dns_server = sink })

unfoldable pub pop_client : Os → M Relay (Unit {0})
unfolding pop
pop_client os s =
    let (r, (q, sink)) = pop os (s.from_server, s.client) in
    (r, record s { from_server = q; client = sink })

unfoldable pub invoke : Os → Task → M Relay ResultType
unfolding push_server push_client pop_server pop_client
invoke os read_server s = push_server os s >>> λ r t. (ok (result_of r), t)
invoke os read_client s = push_client os s >>> λ r t. (ok (result_of r), t)
invoke os write_server s = pop_server os s >>> λ _ t. (ok continue, t)
invoke os write_client s = pop_client os s >>> λ _ t. (ok continue, t)

unfoldable pub fd_of : Task → Relay → FileDescriptor
fd_of read_server s = s.dns_server.descriptor
fd_of read_client s = s.client.descriptor
fd_of write_server s = s.dns_server.descriptor
fd_of write_client s = s.client.descriptor

unfoldable pub interested : Task → Relay → Bool
unfolding space_available non_empty
interested read_server s = space_available s.from_server
interested read_client s = space_available s.from_client
interested write_server s = non_empty s.from_client
interested write_client s = non_empty s.from_server

-- The kernel during one call of `poll`: its answer, and its reads and writes.
pub record Round : Type 0 where
  pub os : Os
  pub polling : PollOs

abbrev pub put : Poller Task → Relay → Relay
put p s = record s { poller = p }

unfoldable pub poll_once : Round → M Relay PollResult
unfolding invoke fd_of interested poll
poll_once round = poll Relay.poller put (invoke round.os) fd_of interested round.polling

-- `if ( poller.poll( 60000 ).result == Exit ) return;`
abbrev pub or_return : PollResult → M Relay (Unit {0}) → M Relay (Unit {0})
or_return poll_success next s = next s
or_return poll_timeout next s = next s
or_return (poll_exit status) next s = (ok tt, s)

unfoldable pub poll_loop : List Round → M Relay (Unit {0})
unfolding poll_once
poll_loop [] s = (running, s)
poll_loop (round ∷ rounds) s = poll_once round s >>> λ r t. or_return r (poll_loop rounds) t

abbrev action : Direction → Task → Action Task
action direction task = record { direction = direction; callback = task; active = true }

-- the four calls of `add_action`, on an empty poller
unfoldable pub actions : FileDescriptor → FileDescriptor → Poller Task
unfolding add_action
actions client dns_server = add_action client.fd (action outgoing write_client) (
    add_action dns_server.fd (action outgoing write_server) (
      add_action client.fd (action incoming read_client) (
        add_action dns_server.fd (action incoming read_server)
          (record { actions = []; pollfds = [] }))))

abbrev fresh_sink : FileDescriptor → Sink
fresh_sink s = record { descriptor = s; accepted = [] }

unfoldable pub start_with :
    ByteStreamQueue → ByteStreamQueue → FileDescriptor → FileDescriptor → Relay
unfolding actions
start_with from_client from_server client dns_server = record {
  poller = actions client dns_server;
  client = fresh_sink client;
  dns_server = fresh_sink dns_server;
  from_client = from_client;
  from_server = from_server;
  client_received = [];
  server_received = [];
}

unfoldable pub start : FileDescriptor → FileDescriptor → Outcome Relay
unfolding start_with ByteStreamQueue.construct
start client dns_server = do
  from_client ← ByteStreamQueue.construct ring_size
  from_server ← ByteStreamQueue.construct ring_size
  ok (start_with from_client from_server client dns_server)

-- What the thread throws stays in it; its state is there once the rings are.
unfoldable pub relay_tcp : Net → List Round → Address → FileDescriptor → M (Option Relay) (Unit {0})
unfolding connect_server start poll_loop
relay_tcp net rounds target client = λ s.
    catching
      ((do dns_server ← connect_server net target; start client dns_server, s) >>> λ relay _.
        let (r, t) = poll_loop rounds relay in (r, some t))
      (λ e t. (ok tt, t))
