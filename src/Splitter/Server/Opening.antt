-- ===== src/Splitter/Server/Opening.antt =====
-- New connections at the server: one that is opened, one that is refused, and the invariant.
use koho.Prelude.{
  ℕ, ◌^◌, ◌<◌, ◌≡◌, ◌≢◌, true, false, none, some, List, [], ◌∷◌, ◌++◌, lookup, insert, erase-insert,
  erase_absent, ok, thrown, ◌>>>◌, All, unix_error,
}
use koho.FileDescriptor
use koho.FileDescriptor.{FileDescriptor, Os}
use koho.Packet
use koho.Packet.{SplitTcpPacket}
use koho.Text.{to_string}
use koho.Address
use koho.Address.{Address, Resolver}
use koho.Socket
use koho.Socket.{Net, AutoSocket, auto_read, af_inet, sock_stream}
use koho.Epoller
use koho.Epoller.{EpollOs, ResultType, continue}
use koho.Splitter.{packet, lock, unlock, send, add_action}
use koho.Splitter.Invariant.{IsValid, Linked-insert, action_for}
use koho.Splitter.Server.{
  Server, connection, client_socket, establish_new_tcp_connection,
  receive_packet_from_splitter_client,
}
use koho.Splitter.Server.Handlers.{connection-injective, parse_destination-named}

-- The state with a new connection, which has been connected to an address and is watched under its id,
-- after a datagram has been read.
abbrev pub with_connection : ℕ → FileDescriptor → Address → AutoSocket → Server → Server
with_connection uid c dest reader s = record s {
  connects = s.connects ++ (c.fd, dest) ∷ [];
  connections = insert uid c s.connections;
  epoller = record s.epoller {
    actions = insert c.fd (action_for connection uid) s.epoller.actions;
  };
  other_side = reader;
}

-- A request for a connection that the server does not know, in the words of a client.
module _ (names : Resolver) (net : Net) (epoll : EpollOs) (s : Server) (datagram : List ℕ)
    (reader : AutoSocket) (uid port : ℕ) (host : List ℕ) (dest : Address) (c : FileDescriptor)
    (valid : IsValid connection s)
    (arrived : auto_read names net s.other_side ≡ (ok datagram, reader))
    (parsed : Packet.parse datagram ≡ ok (packet true uid (host ++ (b':' ∷ to_string port))))
    (no_colon : All (λ x. x ≢ b':') host) (is_port : port < 2 ^ 16)
    (unknown : lookup uid s.connections ≡ none) (named : Address.of_ip names host port ≡ ok dest)
    (created : Socket.new_socket net af_inet sock_stream ≡ ok c) where
  -- A connection that can be made is made to the host and port that the body names; it gets the id of
  -- the packet and is watched under it, and the invariant holds after it.
  pub receive_new_connection_ok :
      (n m : ℕ)
      → Socket.connect net c dest ≡ ok n
      → lookup c.fd s.epoller.actions ≡ none
      → epoll.ctl_add c.fd ≡ some m
      → (receive_packet_from_splitter_client names net epoll s
          ≡ (ok continue, with_connection uid c dest reader s))
        × IsValid connection (with_connection uid c dest reader s)
  unfolding receive_packet_from_splitter_client establish_new_tcp_connection lock unlock add_action
      Epoller.add_action
  receive_new_connection_ok n m connects new_fd added = (
    rw (
      arrived,
      parsed,
      valid.free,
      unknown,
      parse_destination-named names host port no_colon is_port,
      named,
      unknown,
      created,
      connects,
      new_fd,
      added,
    ),
    record {
      free = valid.free;
      linked = Linked-insert connection connection-injective valid.linked uid c unknown new_fd;
    },
  )

  -- A request, in the words of a client, for a connection that the server does not know, when the
  -- socket can be made and connect(2) fails: of the connection nothing is left but a closed socket,
  -- and its end is sent to the client before the mutex is unlocked.
  pub receive_new_connection_fails :
      Socket.connect net c dest ≡ thrown (unix_error "connect")
      → receive_packet_from_splitter_client names net epoll s ≡ (
          send (client_socket names net) (packet false uid []) (record s {
            locked = true;
            connects = s.connects ++ (c.fd, dest) ∷ [];
            closed = s.closed ++ FileDescriptor.destroy c;
            other_side = reader;
          })
          >>> λ _ t. unlock t >>> λ _ u. (ok continue, u))
  unfolding receive_packet_from_splitter_client establish_new_tcp_connection lock
  receive_new_connection_fails fails = rw (
    arrived,
    parsed,
    valid.free,
    unknown,
    parse_destination-named names host port no_colon is_port,
    named,
    unknown,
    created,
    fails,
    erase-insert,
    erase_absent uid s.connections unknown,
  )
