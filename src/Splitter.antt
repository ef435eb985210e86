-- ===== src/Splitter.antt =====
-- src/tcp_splitter/: what the two ends of the TCP splitter share (tcp_splitter_common.hh and
-- split_tcp_connection.hh). Its children are the ends, and the laws.
pub mod Invariant
pub mod Relay
pub mod Ids
pub mod Delivery
pub mod Client
pub mod Server
pub mod EndToEnd
use koho.Prelude.{
  ℕ, ◌-◌, Bool, true, false, not, Option, none, some, List, [], ◌∷◌, ◌++◌, if◌then◌else◌, is_empty,
  lookup, insert, erase, has_key, Outcome, ok, aborted, undefined, assert, M, ◌>>>◌, ◌>>!◌ as ◌>>=◌,
  pure, when,
}
use koho.FileDescriptor
use koho.FileDescriptor.{FileDescriptor, Os, Sink}
use koho.Address.{Address}
use koho.Packet
use koho.Packet.{SplitTcpPacket, size_of_header}
use koho.Epoller
use koho.Epoller.{Epoller, EpollOs, incoming, ResultType, continue, cancel}

-- The state that both ends have. `connections` maps the id of a connection to its socket,
-- `other_side` is the socket to the other end, `locked` the mutex. `connects`, `delivered`
-- and `closed` tell what the kernel has been given: descriptors to connect and where to, bytes on a
-- connection, and descriptors to close.
pub record Splitter (H P : Type 0) : Type 0 where
  pub locked : Bool
  pub connections : List (ℕ × FileDescriptor)
  pub epoller : Epoller H
  pub other_side : P
  pub connects : List (ℕ × Address)
  pub delivered : List (ℕ × List ℕ)
  pub closed : List ℕ

-- The virtual methods of `FileDescriptor` on the socket to the other end.
pub record OtherSide (P : Type 0) : Type 0 where
  pub read : M P (List ℕ)
  pub write : List ℕ → M P (Unit {0})

infixl 5 ◌>>◌
abbrev pub ◌>>◌ : {S B : Type 0} → M S (Unit {0}) → M S B → M S B
m >> k = m >>= λ _. k

-- to avoid oversize packets: 1500 - 100 - sizeof( SplitTCPPacket::Header )
abbrev pub read_limit : ℕ
read_limit = 1500 - 100 - size_of_header

abbrev pub packet : Bool → ℕ → List ℕ → SplitTcpPacket
packet new_connection uid body = record {
  header = record { new_connection = new_connection; uid = uid };
  body = body;
}

module _ {H P : Type 0} where
  -- To lock a std::mutex twice from one thread is undefined, and so is to unlock it when it is free.
  unfoldable pub lock : M (Splitter H P) (Unit {0})
  lock s = if s.locked then (undefined, s) else (ok tt, record s { locked = true })

  unfoldable pub unlock : M (Splitter H P) (Unit {0})
  unlock s = if s.locked then (ok tt, record s { locked = false }) else (undefined, s)

  abbrev pub find_connection : ℕ → M (Splitter H P) (Option FileDescriptor)
  find_connection uid s = (ok (lookup uid s.connections), s)

  -- `other_side_socket.write( … )`
  unfoldable pub send : OtherSide P → SplitTcpPacket → M (Splitter H P) (Unit {0})
  send w p s =
      let (r, other_side) = w.write (Packet.to_string p) s.other_side in
      (r, record s { other_side = other_side })

  -- `epoller_.add_action( Epoller::Action( socket, Direction::In, callback ) )`
  unfoldable pub add_action : EpollOs → ℕ → H → M (Splitter H P) (Unit {0})
  add_action epoll fd callback s =
      let (r, epoller) =
        Epoller.add_action epoll fd (record { direction = incoming; callback = callback })
          s.epoller in
      (r, record s { epoller = epoller }) >>> λ _ t. (ok tt, t)

  close_found : EpollOs → ℕ → Option FileDescriptor → M (Splitter H P) (Unit {0})
  close_found epoll uid none s = (aborted, s)
  close_found epoll uid (some c) s =
      let (r, epoller) = Epoller.remove_action epoll c.fd s.epoller in
      (r, record s { epoller = epoller }) >>> λ _ t. (
        ok tt,
        record t {
          connections = erase uid t.connections;
          closed = t.closed ++ FileDescriptor.destroy c;
        },
      )

  unfoldable pub close_connection : EpollOs → ℕ → M (Splitter H P) (Unit {0})
  unfolding close_found
  close_connection epoll uid s = close_found epoll uid (lookup uid s.connections) s

  read_connection : Os → ℕ → FileDescriptor → M (Splitter H P) (List ℕ)
  read_connection os uid c s =
      let (r, c') = FileDescriptor.read os read_limit c in
      (r, record s { connections = insert uid c' s.connections })

  -- `connection_iter->second.socket.write( body )`
  unfoldable pub write_connection : Os → ℕ → FileDescriptor → List ℕ → M (Splitter H P) (Unit {0})
  write_connection os uid c body s =
      let (r, t) = FileDescriptor.write os body true (record { descriptor = c; accepted = [] }) in
      (
        r,
        record s {
          connections = insert uid t.descriptor s.connections;
          delivered = s.delivered ++ (uid, t.accepted) ∷ [];
        },
      )
      >>> λ _ u. (ok tt, u)

module _ {H P : Type 0} (os : Os) (epoll : EpollOs) (w : OtherSide P) where
  receive_found : ℕ → Option FileDescriptor → M (Splitter H P) ResultType
  unfolding read_connection
  receive_found uid none = do unlock; pure continue
  receive_found uid (some c) = do
    body ← read_connection os uid c
    when (is_empty body) (close_connection epoll uid)
    unlock
    send w (packet false uid body)
    pure (if is_empty body then cancel else continue)

  unfoldable pub receive_bytes_from_tcp_connection : ℕ → M (Splitter H P) ResultType
  unfolding receive_found
  receive_bytes_from_tcp_connection uid = do
    lock
    found ← find_connection uid
    receive_found uid found

  -- What both ends do with a packet for a connection that they know.
  unfoldable pub deliver : ℕ → FileDescriptor → List ℕ → M (Splitter H P) (Unit {0})
  deliver uid c body =
      if is_empty body then close_connection epoll uid else write_connection os uid c body
