-- ===== src/Splitter/Server/Handlers.antt =====
-- The packets of the client at the server, branch by branch.
use koho.Prelude.{
  ℕ, ◌^◌, ◌<◌, ◌≡◌, ◌≢◌, Bool, true, false, none, some, List, ◌∷◌, ◌++◌, lookup, Exception, Outcome,
  ok, thrown, aborted, ◌>>>◌, inl, inr, Option-cases, All,
}
use koho.FileDescriptor.{FileDescriptor}
use koho.Packet
use koho.Packet.{SplitTcpPacket}
use koho.Packet.Laws.{parse_total}
use koho.Text.{to_string}
use koho.Address
use koho.Address.{Address, Resolver}
use koho.Address.Names.{cut_at_colon}
use koho.Socket.{Net, AutoSocket, auto_read}
use koho.Epoller.{EpollOs, ResultType, continue}
use koho.Splitter.{packet, lock, unlock, deliver}
use koho.Splitter.Server.{
  Server, connection, client_socket, parse_destination, open_connection,
  receive_packet_from_splitter_client,
}

pub connection-injective : (a b : ℕ) → connection a ≡ connection b → a ≡ b
connection-injective a b e = cc

-- A text that is a host without a colon, a colon and a port in decimal is read as the address of
-- just this host and port.
pub parse_destination-named :
    (names : Resolver) (host : List ℕ) (port : ℕ)
    → All (λ x. x ≢ b':') host
    → port < 2 ^ 16
    → parse_destination names (host ++ (b':' ∷ to_string port)) ≡ Address.of_ip names host port
unfolding parse_destination
parse_destination-named names host port no_colon is_port =
    let (found, before, behind) = cut_at_colon host port no_colon is_port in
    rw (found, before, behind)

-- How a packet from the client is taken: what is no packet throws before the mutex is locked; a packet
-- for an unknown connection is dropped, or it asks for that connection to be opened; a packet for a
-- known connection is delivered to it, or it asks for the connection once more and fails the
-- assertion, with the mutex locked.
pub data Received (names : Resolver) (net : Net) (epoll : EpollOs) (s : Server) (datagram : List ℕ)
    (run : Outcome ResultType × Server) : Type 0 where
  malformed :
      (e : Exception)
      → Packet.parse datagram ≡ thrown e
      → run ≡ (thrown e, s)
      → Received names net epoll s datagram run
  dropped :
      (uid : ℕ) (body : List ℕ)
      → Packet.parse datagram ≡ ok (packet false uid body)
      → lookup uid s.connections ≡ none
      → run ≡ (ok continue, s)
      → Received names net epoll s datagram run
  opened :
      (uid : ℕ) (body : List ℕ)
      → Packet.parse datagram ≡ ok (packet true uid body)
      → lookup uid s.connections ≡ none
      → run ≡ (
          open_connection names net epoll (packet true uid body) (record s { locked = true })
          >>> λ _ u. unlock u >>> λ _ v. (ok continue, v))
      → Received names net epoll s datagram run
  refused :
      (uid : ℕ) (body : List ℕ) (c : FileDescriptor)
      → Packet.parse datagram ≡ ok (packet true uid body)
      → lookup uid s.connections ≡ some c
      → run ≡ (aborted, record s { locked = true })
      → Received names net epoll s datagram run
  passed_on :
      (uid : ℕ) (body : List ℕ) (c : FileDescriptor)
      → Packet.parse datagram ≡ ok (packet false uid body)
      → lookup uid s.connections ≡ some c
      → run ≡ (
          deliver net.os epoll (client_socket names net) uid c body (record s { locked = true })
          >>> λ _ u. unlock u >>> λ _ v. (ok continue, v))
      → Received names net epoll s datagram run

module _ (names : Resolver) (net : Net) (epoll : EpollOs) (s : Server) (datagram : List ℕ)
    (reader : AutoSocket) (free : s.locked ≡ false)
    (arrived : auto_read names net s.other_side ≡ (ok datagram, reader)) where
  receive_packet_malformed :
      (e : Exception)
      → Packet.parse datagram ≡ thrown e
      → receive_packet_from_splitter_client names net epoll s
        ≡ (thrown e, record s { other_side = reader })
  unfolding receive_packet_from_splitter_client
  receive_packet_malformed e bad = rw (arrived, bad)

  receive_packet_unknown :
      (uid : ℕ) (body : List ℕ)
      → Packet.parse datagram ≡ ok (packet false uid body)
      → lookup uid s.connections ≡ none
      → receive_packet_from_splitter_client names net epoll s
        ≡ (ok continue, record s { other_side = reader })
  unfolding receive_packet_from_splitter_client lock unlock
  receive_packet_unknown uid body parsed gone = rw (arrived, parsed, free, gone)

  receive_packet_new :
      (uid : ℕ) (body : List ℕ)
      → Packet.parse datagram ≡ ok (packet true uid body)
      → lookup uid s.connections ≡ none
      → receive_packet_from_splitter_client names net epoll s ≡ (
          open_connection names net epoll
            (packet true uid body)
            (record s { other_side = reader; locked = true })
          >>> λ _ u. unlock u >>> λ _ v. (ok continue, v))
  unfolding receive_packet_from_splitter_client lock
  receive_packet_new uid body parsed gone = rw (arrived, parsed, free, gone)

  receive_packet_again :
      (uid : ℕ) (body : List ℕ) (c : FileDescriptor)
      → Packet.parse datagram ≡ ok (packet true uid body)
      → lookup uid s.connections ≡ some c
      → receive_packet_from_splitter_client names net epoll s
        ≡ (aborted, record s { other_side = reader; locked = true })
  unfolding receive_packet_from_splitter_client lock
  receive_packet_again uid body c parsed known = rw (arrived, parsed, free, known)

  pub receive_packet_known :
      (uid : ℕ) (body : List ℕ) (c : FileDescriptor)
      → Packet.parse datagram ≡ ok (packet false uid body)
      → lookup uid s.connections ≡ some c
      → receive_packet_from_splitter_client names net epoll s ≡ (
          deliver net.os epoll
            (client_socket names net)
            uid
            c
            body
            (record s { other_side = reader; locked = true })
          >>> λ _ u. unlock u >>> λ _ v. (ok continue, v))
  unfolding receive_packet_from_splitter_client lock
  receive_packet_known uid body c parsed known = rw (arrived, parsed, free, known)

  by_kind :
      (b : Bool) (uid : ℕ) (body : List ℕ)
      → Packet.parse datagram ≡ ok (packet b uid body)
      → Received names net epoll
          (record s { other_side = reader })
          datagram
          (receive_packet_from_splitter_client names net epoll s)
  by_kind true uid body parsed = elim (Option-cases (lookup uid s.connections)) [
    | inl gone ↦ opened uid body parsed gone (receive_packet_new uid body parsed gone)
    | inr (c, known) ↦
        refused uid body c parsed known (receive_packet_again uid body c parsed known)
  ]
  by_kind false uid body parsed = elim (Option-cases (lookup uid s.connections)) [
    | inl gone ↦ dropped uid body parsed gone (receive_packet_unknown uid body parsed gone)
    | inr (c, known) ↦
        passed_on uid body c parsed known (receive_packet_known uid body c parsed known)
  ]

  -- Every datagram that the server reads while the mutex is free is taken in one of the five ways of
  -- `Received`.
  pub receive_packet_from_client_cases :
      Received names net epoll
        (record s { other_side = reader })
        datagram
        (receive_packet_from_splitter_client names net epoll s)
  receive_packet_from_client_cases = elim (parse_total datagram) [
    | inl (e, bad) ↦ malformed e bad (receive_packet_malformed e bad)
    | inr (p, parsed) ↦ by_kind p.header.new_connection p.header.uid p.body parsed
  ]
