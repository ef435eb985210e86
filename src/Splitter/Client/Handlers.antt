-- ===== src/Splitter/Client/Handlers.antt =====
-- The handlers of the client, branch by branch.
use koho.Prelude.{
  ℕ, ◌≡◌, refl, sym, ap, subst, ◌∙◌, Bool, true, false, ◌||◌, none, some, List, is_empty, lookup,
  Exception, Outcome, ok, thrown, aborted, ◌>>>◌, increment, inl, inr, Option-cases,
}
use koho.FileDescriptor
use koho.FileDescriptor.{FileDescriptor, Os, Sink, buffer_size}
use koho.FileDescriptor.Writes.{IsPosix}
use koho.Packet
use koho.Packet.{SplitTcpPacket}
use koho.Packet.Laws.{parse_total}
use koho.Socket.{Net}
use koho.Epoller.{EpollOs, ResultType, continue}
use koho.Splitter.{Splitter, packet, lock, unlock, deliver}
use koho.Splitter.Invariant.{IsValid, Linked}
use koho.Splitter.Delivery.{deliver_unlocked-IsValid}
use koho.Splitter.Client.{
  Callback, connection, ServerSocket, server_socket, receive_packet_from_splitter_server,
}

pub connection-injective : (a b : ℕ) → connection a ≡ connection b → a ≡ b
connection-injective a b e = cc

-- The state after a datagram has been read from the server.
abbrev pub after_datagram : List ℕ → Splitter Callback ServerSocket → Splitter Callback ServerSocket
after_datagram datagram s = record s {
  other_side = record s.other_side {
    descriptor = record s.other_side.descriptor {
      eof = is_empty datagram || s.other_side.descriptor.eof;
      read_count = increment s.other_side.descriptor.read_count;
    };
  };
}

-- How a datagram from the server is taken: what is no packet throws before the mutex is locked, a
-- request for a new connection fails the assertion, a packet for a connection that is gone is
-- dropped, and any other is delivered to its connection under the mutex, which is unlocked then.
pub data Received (net : Net) (epoll : EpollOs) (s : Splitter Callback ServerSocket)
    (datagram : List ℕ) (run : Outcome ResultType × Splitter Callback ServerSocket) : Type 0 where
  malformed :
      (e : Exception)
      → Packet.parse datagram ≡ thrown e
      → run ≡ (thrown e, after_datagram datagram s)
      → Received net epoll s datagram run
  refused :
      (uid : ℕ) (body : List ℕ)
      → Packet.parse datagram ≡ ok (packet true uid body)
      → run ≡ (aborted, after_datagram datagram s)
      → Received net epoll s datagram run
  dropped :
      (uid : ℕ) (body : List ℕ)
      → Packet.parse datagram ≡ ok (packet false uid body)
      → lookup uid s.connections ≡ none
      → run ≡ (ok continue, after_datagram datagram s)
      → Received net epoll s datagram run
  passed_on :
      (uid : ℕ) (body : List ℕ) (c : FileDescriptor)
      → Packet.parse datagram ≡ ok (packet false uid body)
      → lookup uid s.connections ≡ some c
      → run ≡ (
          deliver net.os epoll
            (server_socket net.os)
            uid
            c
            body
            (record (after_datagram datagram s) { locked = true })
          >>> λ _ u. unlock u >>> λ _ v. (ok continue, v))
      → Received net epoll s datagram run

module _ (net : Net) (epoll : EpollOs) (s : Splitter Callback ServerSocket) (datagram : List ℕ)
    (free : s.locked ≡ false)
    (arrived : net.read s.other_side.descriptor.fd buffer_size ≡ some datagram) where
  -- A datagram that is no packet ends in the exception of the parser, before the mutex is taken.
  receive_packet_malformed :
      (e : Exception)
      → Packet.parse datagram ≡ thrown e
      → receive_packet_from_splitter_server net epoll s ≡ (thrown e, after_datagram datagram s)
  unfolding receive_packet_from_splitter_server FileDescriptor.read
  receive_packet_malformed e bad = rw (arrived, bad)

  receive_packet_new_connection :
      (uid : ℕ) (body : List ℕ)
      → Packet.parse datagram ≡ ok (packet true uid body)
      → receive_packet_from_splitter_server net epoll s ≡ (aborted, after_datagram datagram s)
  unfolding receive_packet_from_splitter_server FileDescriptor.read
  receive_packet_new_connection uid body parsed = rw (arrived, parsed)

  receive_packet_unknown :
      (uid : ℕ) (body : List ℕ)
      → Packet.parse datagram ≡ ok (packet false uid body)
      → lookup uid s.connections ≡ none
      → receive_packet_from_splitter_server net epoll s ≡ (ok continue, after_datagram datagram s)
  unfolding receive_packet_from_splitter_server FileDescriptor.read lock unlock
  receive_packet_unknown uid body parsed gone = rw (arrived, parsed, free, gone)

  receive_packet_known :
      (uid : ℕ) (body : List ℕ) (c : FileDescriptor)
      → Packet.parse datagram ≡ ok (packet false uid body)
      → lookup uid s.connections ≡ some c
      → receive_packet_from_splitter_server net epoll s ≡ (
          deliver net.os epoll
            (server_socket net.os)
            uid
            c
            body
            (record (after_datagram datagram s) { locked = true })
          >>> λ _ t. unlock t >>> λ _ u. (ok continue, u))
  unfolding receive_packet_from_splitter_server FileDescriptor.read lock
  receive_packet_known uid body c parsed known = rw (arrived, parsed, free, known)

  by_kind :
      (b : Bool) (uid : ℕ) (body : List ℕ)
      → Packet.parse datagram ≡ ok (packet b uid body)
      → Received net epoll s datagram (receive_packet_from_splitter_server net epoll s)
  by_kind true uid body parsed =
      refused uid body parsed (receive_packet_new_connection uid body parsed)
  by_kind false uid body parsed = elim (Option-cases (lookup uid s.connections)) [
    | inl gone ↦ dropped uid body parsed gone (receive_packet_unknown uid body parsed gone)
    | inr (c, known) ↦
        passed_on uid body c parsed known (receive_packet_known uid body c parsed known)
  ]

  -- Every datagram that the client reads while the mutex is free is taken in one of the four ways of
  -- `Received`.
  pub receive_packet_from_server_cases :
      Received net epoll s datagram (receive_packet_from_splitter_server net epoll s)
  receive_packet_from_server_cases = elim (parse_total datagram) [
    | inl (e, bad) ↦ malformed e bad (receive_packet_malformed e bad)
    | inr (p, parsed) ↦ by_kind p.header.new_connection p.header.uid p.body parsed
  ]

  -- When the client's mutex is free and its maps belong together, on a kernel that keeps to read(2)
  -- and write(2): whatever datagram is read, if the handler returns, the mutex is free again, every
  -- connection is watched under its id, and every action has its connection.
  pub receive_packet_from_server-IsValid :
      (t : Splitter Callback ServerSocket) (r : ResultType)
      → IsPosix net.os
      → Linked connection s.connections s.epoller.actions
      → receive_packet_from_splitter_server net epoll s ≡ (ok r, t)
      → IsValid connection t
  receive_packet_from_server-IsValid t r posix linked e = elim receive_packet_from_server_cases [
    | malformed x _ run ↦ cc (ap (λ y. y.0) e, ap (λ y. y.0) run)
    | refused _ _ _ run ↦ cc (ap (λ y. y.0) e, ap (λ y. y.0) run)
    | dropped uid body _ _ run ↦
        subst (λ u. IsValid connection u) (ap (λ y. y.1) (sym run ∙ e))
          (record { free = free; linked = linked })
    | passed_on uid body c _ known run ↦
        deliver_unlocked-IsValid connection connection-injective net.os epoll (server_socket net.os)
          posix (record (after_datagram datagram s) { locked = true }) t uid c body continue r refl
          known linked (sym run ∙ e)
  ]
