-- ===== src/Splitter/Server.antt =====
-- src/tcp_splitter/tcp_splitter_server.{hh,cc}: the end that opens connections.
pub mod Handlers
pub mod Construct
pub mod Opening
pub mod Validity
pub mod Lifetime
use koho.Prelude.{
  ℕ, ◌+◌, Bool, true, false, not, Option, none, some, List, [], ◌∷◌, ◌++◌, if◌then◌else◌, is_some,
  take, drop, lookup, insert, erase, has_key, Outcome, ok, thrown, aborted, undefined, running,
  assert, M, ◌>>>◌, ◌>>!◌ as ◌>>=◌, pure, lift, when,
}
use koho.FileDescriptor
use koho.FileDescriptor.{FileDescriptor, Os, Sink, buffer_size}
use koho.Packet
use koho.Packet.{SplitTcpPacket}
use koho.Text.{bytes, find, atoi_uint16}
use koho.Address
use koho.Address.{Address, Resolver}
use koho.Socket
use koho.Socket.{Net, AutoSocket, auto_read, auto_write, af_inet, sock_stream}
use koho.Epoller
use koho.Epoller.{
  Epoller, EpollOs, Action, incoming, ResultType, continue, cancel, PollResult, poll_success,
  poll_timeout, poll_exit,
}
use koho.Splitter.{
  Splitter, OtherSide, ◌>>◌, packet, lock, unlock, find_connection, send, add_action, deliver,
  receive_bytes_from_tcp_connection,
}

pub data Callback : Type 0 where
  from_client : Callback
  connection : ℕ → Callback

abbrev pub Server : Type 0
Server = Splitter Callback AutoSocket

abbrev pub client_socket : Resolver → Net → OtherSide AutoSocket
client_socket names net = record { read = auto_read names net; write = auto_write names net }

module _ (net : Net) (epoll : EpollOs) where
  -- How `newSocket.connect( dest_addr )` ended decides; on an exception the entry is erased, and its
  -- socket closed.
  connected : ℕ → FileDescriptor → Outcome ℕ → M Server Bool
  connected uid c (ok _) s = add_action epoll c.fd (connection uid) s >>> λ _ t. (ok true, t)
  connected uid c (thrown e) s = (
    ok false,
    record s {
      connections = erase uid s.connections;
      closed = s.closed ++ FileDescriptor.destroy c;
    },
  )
  connected uid c aborted s = (aborted, s)
  connected uid c undefined s = (undefined, s)
  connected uid c running s = (running, s)

  -- `newSocket.connect( dest_addr )`, with its outcome
  connect_socket : FileDescriptor → Address → M Server (Outcome ℕ)
  connect_socket c dest_addr s = (
    ok (Socket.connect net c dest_addr),
    record s { connects = s.connects ++ (c.fd, dest_addr) ∷ [] },
  )

  unfoldable pub establish_new_tcp_connection : ℕ → Address → M Server Bool
  unfolding connected connect_socket
  establish_new_tcp_connection uid dest_addr = do
    (λ s. (assert (not (has_key uid s.connections)), s))
    c ← lift (Socket.new_socket net af_inet sock_stream)
    (λ s. (ok tt, record s { connections = insert uid c s.connections }))
    outcome ← connect_socket c dest_addr
    connected uid c outcome

module _ (names : Resolver) where
  destination_at : List ℕ → Option ℕ → Outcome Address
  destination_at body none = aborted
  destination_at body (some pos) =
      Address.of_ip names (take pos body) (atoi_uint16 (drop (pos + 1) body))

  -- the destination that the body of a packet names, cut at its first colon
  unfoldable pub parse_destination : List ℕ → Outcome Address
  unfolding destination_at
  parse_destination body = destination_at body (find b':' body)

module _ (names : Resolver) (net : Net) (epoll : EpollOs) where
  unfoldable pub open_connection : SplitTcpPacket → M Server (Unit {0})
  unfolding parse_destination establish_new_tcp_connection
  open_connection p = do
    dest_addr ← lift (parse_destination names p.body)
    success ← establish_new_tcp_connection net epoll p.header.uid dest_addr
    when (not success) (send (client_socket names net) (packet false p.header.uid []))

  receive_found : SplitTcpPacket → Option FileDescriptor → M Server (Unit {0})
  unfolding open_connection
  receive_found p none = when p.header.new_connection (open_connection p)
  receive_found p (some c) = do
    lift (assert (not p.header.new_connection))
    deliver net.os epoll (client_socket names net) p.header.uid c p.body

  -- the lambda that `loop` registers for the socket to the client
  unfoldable pub receive_packet_from_splitter_client : M Server ResultType
  unfolding receive_found
  receive_packet_from_splitter_client = do
    datagram ←
        (λ s. let (r, p) = auto_read names net s.other_side in (r, record s { other_side = p }))
    p ← lift (Packet.parse datagram)
    lock
    found ← find_connection p.header.uid
    receive_found p found
    unlock
    pure continue

  unfoldable pub invoke : Callback → M Server ResultType
  unfolding receive_packet_from_splitter_client
  invoke from_client = receive_packet_from_splitter_client
  invoke (connection uid) =
      receive_bytes_from_tcp_connection net.os epoll (client_socket names net) uid

-- the descriptor that an action refers to
abbrev pub descriptor_of : Callback → Server → Option FileDescriptor
descriptor_of from_client s = some s.other_side.socket.descriptor
descriptor_of (connection uid) s = lookup uid s.connections

abbrev counts : (FileDescriptor → ℕ) → Option FileDescriptor → ℕ
counts count none = 0
counts count (some d) = count d

-- one call of `epoller_.poll( -1 )`
unfoldable pub poll_once : Resolver → Net → EpollOs → M Server PollResult
unfolding invoke
poll_once names net epoll =
    Epoller.poll (λ (s : Server). s.epoller) (invoke names net epoll)
      (λ c s. counts (λ d. d.read_count) (descriptor_of c s))
      (λ c s. counts (λ d. d.write_count) (descriptor_of c s)) epoll

-- as for the client
unfoldable pub poll_loop : Resolver → List (Net × EpollOs) → M Server (Unit {0})
unfolding poll_once
poll_loop names [] s = (running, s)
poll_loop names ((net, epoll) ∷ rounds) s = poll_once names net epoll s >>> λ result t.
    elim result [ poll_exit status ↦ (ok tt, t) | _ ↦ poll_loop names rounds t ]

unfoldable pub loop : Resolver → EpollOs → List (Net × EpollOs) → M Server (Unit {0})
unfolding poll_loop
loop names epoll rounds = do
  (λ s. add_action epoll s.other_side.socket.descriptor.fd from_client s)
  poll_loop names rounds
