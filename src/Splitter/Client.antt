-- ===== src/Splitter/Client.antt =====
-- src/tcp_splitter/tcp_splitter_client.{hh,cc}: the end that accepts connections.
pub mod Handlers
pub mod Construct
pub mod Accepting
pub mod Polling
pub mod Validity
pub mod Lifetime
use koho.Prelude.{
  ℕ, ◌+◌, ◌%◌, ◌^◌, Bool, true, false, not, Option, none, some, List, [], ◌∷◌, ◌++◌, if◌then◌else◌,
  is_empty, lookup, insert, has_key, Outcome, ok, undefined, assert, M, ◌>>>◌, ◌>>!◌ as ◌>>=◌, pure,
  lift, catching, running,
}
use koho.FileDescriptor
use koho.FileDescriptor.{FileDescriptor, Os, Sink, buffer_size}
use koho.Packet
use koho.Packet.{SplitTcpPacket}
use koho.Text.{bytes}
use koho.Address
use koho.Address.{Address, Resolver}
use koho.Socket
use koho.Socket.{Net}
use koho.Epoller
use koho.Epoller.{
  Epoller, EpollOs, Action, incoming, ResultType, continue, cancel, PollResult, poll_success,
  poll_timeout, poll_exit,
}
use koho.Splitter.{
  Splitter, OtherSide, ◌>>◌, packet, lock, unlock, find_connection, send, add_action, deliver,
  receive_bytes_from_tcp_connection,
}

-- The connected UDP socket to the splitter server, with the datagrams that the kernel has taken.
pub record ServerSocket : Type 0 where
  pub descriptor : FileDescriptor
  pub datagrams : List (List ℕ)

pub data Callback : Type 0 where
  new_connection from_server : Callback
  connection : ℕ → Callback

pub record Client : Type 0 where
  pub listener : FileDescriptor
  pub next_connection_uid : ℕ
  pub splitter : Splitter Callback ServerSocket
  pub open splitter use *

-- The UDPSocket has the methods of `FileDescriptor`. A write(2) to it takes a datagram whole or fails,
-- so what a call of `write` has had accepted is one datagram.
abbrev pub server_socket : Os → OtherSide ServerSocket
server_socket os = record {
  read = λ s.
      let (r, d) = FileDescriptor.read os buffer_size s.descriptor in
      (r, record s { descriptor = d });
  write = λ bytes s.
      let (r, t) =
        FileDescriptor.write os bytes true (record { descriptor = s.descriptor; accepted = [] }) in
      (
        r,
        record {
          descriptor = t.descriptor;
          datagrams = s.datagrams ++ (if is_empty t.accepted then [] else t.accepted ∷ []);
        },
      )
      >>> λ _ u. (ok tt, u);
}

-- a part of the work that concerns the shared state only
abbrev pub on_splitter : {A : Type 0} → M (Splitter Callback ServerSocket) A → M Client A
on_splitter m s = let (r, t) = m s.splitter in (r, record s { splitter = t })

unfoldable pub get_connection_uid : M Client ℕ
get_connection_uid s = (
  ok s.next_connection_uid,
  record s { next_connection_uid = (s.next_connection_uid + 1) % 2 ^ 64 },
)

accept_connection : Net → M Client FileDescriptor
accept_connection net s =
    let (r, (listener, closed)) = Socket.accept net (s.listener, s.closed) in
    (r, record s { listener = listener; splitter = record s.splitter { closed = closed } })

-- `emplace` leaves an element that is there, and the socket made for it is closed.
emplace_found :
    ℕ → FileDescriptor → Option FileDescriptor → M (Splitter Callback ServerSocket) FileDescriptor
emplace_found uid c none s = (ok c, record s { connections = insert uid c s.connections })
emplace_found uid c (some old) s =
    (ok old, record s { closed = s.closed ++ FileDescriptor.destroy c })

emplace : ℕ → FileDescriptor → M (Splitter Callback ServerSocket) FileDescriptor
unfolding emplace_found
emplace uid c s = emplace_found uid c (lookup uid s.connections) s

module _ (names : Resolver) (net : Net) (epoll : EpollOs) where
  -- the `try` block of `handle_new_tcp_connection`; C++ leaves open which argument of `make_pair` is
  -- evaluated first, and here it is the id
  unfoldable pub try_new_tcp_connection : M Client (Unit {0})
  unfolding get_connection_uid accept_connection emplace
  try_new_tcp_connection = do
    uid ← get_connection_uid
    c ← accept_connection net
    incoming_socket ← on_splitter (emplace uid c)
    dest ← lift (Socket.original_dest net incoming_socket)
    text ← lift (Address.str names dest (bytes ":"))
    on_splitter (send (server_socket net.os) (packet true uid text))
    on_splitter (add_action epoll incoming_socket.fd (connection uid))

  -- The handler unlocks the mutex, and then it is unlocked once more.
  unfoldable pub handle_new_tcp_connection : M Client (Unit {0})
  unfolding try_new_tcp_connection
  handle_new_tcp_connection = do
    on_splitter lock
    (λ s. catching (try_new_tcp_connection s) (λ e. on_splitter unlock))
    on_splitter unlock

module _ (net : Net) (epoll : EpollOs) where
  receive_known :
      SplitTcpPacket → Option FileDescriptor → M (Splitter Callback ServerSocket) (Unit {0})
  receive_known p none = pure tt
  receive_known p (some c) = deliver net.os epoll (server_socket net.os) p.header.uid c p.body

  unfoldable pub receive_packet_from_splitter_server : M (Splitter Callback ServerSocket) ResultType
  unfolding receive_known
  receive_packet_from_splitter_server = do
    datagram ← (λ s.
        let (r, p) = (server_socket net.os).read s.other_side in (r, record s { other_side = p }))
    p ← lift (Packet.parse datagram)
    lift (assert (not p.header.new_connection))
    lock
    found ← find_connection p.header.uid
    receive_known p found
    unlock
    pure continue

module _ (names : Resolver) (net : Net) (epoll : EpollOs) where
  -- what the epoller calls for each action
  unfoldable pub invoke : Callback → M Client ResultType
  unfolding handle_new_tcp_connection receive_packet_from_splitter_server
  invoke new_connection = do handle_new_tcp_connection names net epoll; pure continue
  invoke from_server = on_splitter (receive_packet_from_splitter_server net epoll)
  invoke (connection uid) =
      on_splitter (receive_bytes_from_tcp_connection net.os epoll (server_socket net.os) uid)

-- the descriptor that an action refers to
abbrev pub descriptor_of : Callback → Client → Option FileDescriptor
descriptor_of new_connection s = some s.listener
descriptor_of from_server s = some s.other_side.descriptor
descriptor_of (connection uid) s = lookup uid s.connections

abbrev counts : (FileDescriptor → ℕ) → Option FileDescriptor → ℕ
counts count none = 0
counts count (some d) = count d

-- one call of `epoller_.poll( -1 )`
unfoldable pub poll_once : Resolver → Net → EpollOs → M Client PollResult
unfolding invoke
poll_once names net epoll =
    Epoller.poll (λ (s : Client). s.epoller) (invoke names net epoll)
      (λ c s. counts (λ d. d.read_count) (descriptor_of c s))
      (λ c s. counts (λ d. d.write_count) (descriptor_of c s)) epoll

-- `loop` after it has added its two actions, over the answers of the kernel in each round; the exit
-- status is -1, and an endless loop is cut off where the answers end.
unfoldable pub poll_loop : Resolver → List (Net × EpollOs) → M Client (Unit {0})
unfolding poll_once
poll_loop names [] s = (running, s)
poll_loop names ((net, epoll) ∷ rounds) s = poll_once names net epoll s >>> λ result t.
    elim result [ poll_exit status ↦ (ok tt, t) | _ ↦ poll_loop names rounds t ]

unfoldable pub loop : Resolver → EpollOs → List (Net × EpollOs) → M Client (Unit {0})
unfolding poll_loop
loop names epoll rounds = do
  (λ s. on_splitter (add_action epoll s.listener.fd new_connection) s)
  (λ s. on_splitter (add_action epoll s.other_side.descriptor.fd from_server) s)
  poll_loop names rounds
