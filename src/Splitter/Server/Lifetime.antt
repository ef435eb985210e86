-- ===== src/Splitter/Server/Lifetime.antt =====
-- The server from its construction on, through any number of calls of `poll`.
use koho.Prelude.{ℕ, ◌≡◌, sym, ap, subst, Option, List, [], ◌∷◌, All, ok, M, >>>-eq-ok}
use koho.FileDescriptor.Writes.{IsPosix}
use koho.Address.{Address, Resolver}
use koho.Socket.{Net, auto_read}
use koho.Epoller.{EpollOs, ResultType, PollResult}
use koho.Epoller.Keeps.{poll_keeps}
use koho.Splitter.{add_action}
use koho.Splitter.Invariant.{IsValid, Linked-watch, add_action_ok}
use koho.Splitter.Relay.{receive_bytes-IsValid}
use koho.Splitter.Server.{
  Server, Callback, from_client, connection, client_socket, receive_packet_from_splitter_client,
  invoke, poll_once,
}
use koho.Splitter.Server.Construct.{construct, construct-IsValid}
use koho.Splitter.Server.Handlers.{connection-injective}
use koho.Splitter.Server.Validity.{receive_packet_from_client-IsValid}

-- The states of a server after calls of `poll` that return, over what the kernel answers in each, the
-- last one first.
pub data Reaches (names : Resolver) (s : Server) : List (Net × EpollOs) → Server → Type 0 where
  at_start : Reaches names s [] s
  after_poll :
      {rounds : List (Net × EpollOs)} {t u : Server} (net : Net) (epoll : EpollOs) (r : PollResult)
      → Reaches names s rounds t
      → poll_once names net epoll t ≡ (ok r, u)
      → Reaches names s ((net, epoll) ∷ rounds) u

abbrev pub HasPosix : Net × EpollOs → Type 0
HasPosix round = IsPosix round.0.os

module _ (names : Resolver) where
  abbrev arrive : Net → M Server (List ℕ)
  arrive net s = let (r, p) = auto_read names net s.other_side in (r, record s { other_side = p })

  has_arrived :
      (net : Net) (epoll : EpollOs) (s t : Server) (r : ResultType)
      → receive_packet_from_splitter_client names net epoll s ≡ (ok r, t)
      → (datagram : List ℕ) × ((auto_read names net s.other_side).0 ≡ ok datagram)
  unfolding receive_packet_from_splitter_client
  has_arrived net epoll s t r e =
      let (datagram, arrived, _) = >>>-eq-ok (arrive net s) _ e in (datagram, arrived)

  invoke-IsValid :
      (net : Net) (epoll : EpollOs) (c : Callback) (s t : Server) (r : ResultType)
      → IsPosix net.os
      → invoke names net epoll c s ≡ (ok r, t)
      → IsValid connection s
      → IsValid connection t
  unfolding invoke
  invoke-IsValid net epoll (connection uid) s t r posix e valid =
      receive_bytes-IsValid connection connection-injective net.os epoll (client_socket names net) s
        t uid r valid e
  invoke-IsValid net epoll from_client s t r posix e valid =
      let (datagram, arrived) = has_arrived net epoll s t r e in
      receive_packet_from_client-IsValid names net epoll s t datagram
        (auto_read names net s.other_side).1 r posix valid
        (ap (λ o. (o, (auto_read names net s.other_side).1)) arrived) e

  poll_once-IsValid :
      (net : Net) (epoll : EpollOs) (s t : Server) (r : PollResult)
      → IsPosix net.os
      → poll_once names net epoll s ≡ (ok r, t)
      → IsValid connection s
      → IsValid connection t
  unfolding poll_once
  poll_once-IsValid net epoll s t r posix e valid =
      poll_keeps (λ (u : Server). u.epoller) (invoke names net epoll) _ _
        (λ _ u. IsValid connection u) (λ _ _ v. v)
        (λ _ c u v x run h. invoke-IsValid net epoll c u v x posix run h) epoll 0 s t r e
        (λ _ _. valid)

  Reaches-IsValid :
      (s t : Server) (rounds : List (Net × EpollOs))
      → IsValid connection s
      → All HasPosix rounds
      → Reaches names s rounds t
      → IsValid connection t
  Reaches-IsValid s t [] valid posix at_start = valid
  Reaches-IsValid s t (round ∷ rounds) valid posix (after_poll net epoll r before run) =
      poll_once-IsValid net epoll _ t r posix.0 run
        (Reaches-IsValid s _ rounds valid posix.1 before)

  -- A server that has been constructed and whose `loop` has registered the socket to the client, on
  -- kernels that keep to read(2) and write(2): whatever is received and whatever the network answers,
  -- in any number of calls of `poll`, after each of them that returns the mutex is free, every
  -- connection is watched under its id, and every action of a connection has its connection.
  pub served-IsValid :
      (net : Net) (epoll : EpollOs) (epoll_create : Option ℕ) (listen_address : Address)
      (s t u : Server) (rounds : List (Net × EpollOs))
      → construct names net epoll_create listen_address ≡ ok s
      → add_action epoll s.other_side.socket.descriptor.fd from_client s ≡ (ok tt, t)
      → All HasPosix rounds
      → Reaches names t rounds u
      → IsValid connection u
  served-IsValid net epoll epoll_create listen_address s t u rounds made added posix reached =
      let (valid, _) = construct-IsValid names net epoll_create listen_address s made in
      let fd = s.other_side.socket.descriptor.fd in
      let (new, t-is) = add_action_ok epoll fd from_client s t added in
      Reaches-IsValid t u rounds
        (subst (λ v. IsValid connection v) (sym t-is)
          (record {
            free = valid.free;
            linked =
                Linked-watch connection connection-injective valid.linked fd _ (λ _ same. cc same)
                  new;
          }))
        posix reached
