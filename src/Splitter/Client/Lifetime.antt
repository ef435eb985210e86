-- ===== src/Splitter/Client/Lifetime.antt =====
-- The client from its construction on, through any number of calls of `poll`.
use koho.Prelude.{
  ℕ, suc, ◌+◌, ◌<◌, ◌^◌, ◌≡◌, refl, sym, ap, subst, ◌≢◌, Option, none, some, List, [], ◌∷◌, All,
  length, arith, ok, M, >>>-eq-ok, >>>-keeps, inl, inr, lookup, lift, not, assert, Option-cases,
}
use koho.Packet
use koho.Packet.{SplitTcpPacket}
use koho.FileDescriptor
use koho.FileDescriptor.{FileDescriptor, buffer_size}
use koho.FileDescriptor.Writes.{IsPosix}
use koho.Address.{Address, Resolver}
use koho.Socket.{Net}
use koho.Epoller.{EpollOs, ResultType, continue, PollResult}
use koho.Epoller.Keeps.{poll_keeps}
use koho.Splitter.{Splitter, receive_bytes_from_tcp_connection, add_action, lock, unlock}
use koho.Splitter.Invariant.{IsValid, Linked-watch, add_action_ok}
use koho.Splitter.Relay.{receive_bytes-IsValid}
use koho.Splitter.Ids.{
  HasBelow, lock-HasBelow, unlock-HasBelow, deliver-HasBelow, receive_bytes-HasBelow,
}
use koho.Splitter.Client.{
  Client, Callback, ServerSocket, server_socket, new_connection, from_server, connection,
  on_splitter, receive_known, receive_packet_from_splitter_server, handle_new_tcp_connection,
  invoke, poll_once,
}
use koho.Splitter.Client.Construct.{construct, construct-IsValid-IsFresh}
use koho.Splitter.Client.Handlers.{connection-injective, receive_packet_from_server-IsValid}
use koho.Splitter.Client.Validity.{IsFresh, handle_new-IsValid, handle_new_next}

-- The states of a client after calls of `poll` that return, over what the kernel answers in each, the
-- last one first.
pub data Reaches (names : Resolver) (s : Client) : List (Net × EpollOs) → Client → Type 0 where
  at_start : Reaches names s [] s
  after_poll :
      {rounds : List (Net × EpollOs)} {t u : Client} (net : Net) (epoll : EpollOs) (r : PollResult)
      → Reaches names s rounds t
      → poll_once names net epoll t ≡ (ok r, u)
      → Reaches names s ((net, epoll) ∷ rounds) u

abbrev pub HasPosix : Net × EpollOs → Type 0
HasPosix round = IsPosix round.0.os

abbrev ready : Option (List ℕ) → ℕ
ready none = 0
ready (some fds) = length fds

-- How many descriptors have been ready in all.
abbrev pub events : List (Net × EpollOs) → ℕ
events [] = 0
events ((net, epoll) ∷ rounds) = ready epoll.wait + events rounds

-- The invariant, with room for `n` more ids.
record HasRoom (n : ℕ) (s : Client) : Type 0 where
  valid : IsValid connection s.splitter
  fresh : IsFresh s
  room : s.next_connection_uid + n < 2 ^ 64

fewer : (n : ℕ) (s : Client) → HasRoom (suc n) s → HasRoom n s
fewer n s h = record { valid = h.valid; fresh = h.fresh; room = omega (arith, h.room) }

receive_known-HasBelow :
    (n : ℕ) (net : Net) (epoll : EpollOs) (p : SplitTcpPacket) (found : Option FileDescriptor)
    (s : Splitter Callback ServerSocket)
    → lookup p.header.uid s.connections ≡ found
    → HasBelow n s
    → HasBelow n (receive_known net epoll p found s).1
unfolding receive_known
receive_known-HasBelow n net epoll p none s known h = h
receive_known-HasBelow n net epoll p (some c) s known h =
    deliver-HasBelow n net.os epoll (server_socket net.os) p.header.uid c p.body s
      (h p.header.uid c known) h

receive_packet-HasBelow :
    (n : ℕ) (net : Net) (epoll : EpollOs) (s : Splitter Callback ServerSocket)
    → HasBelow n s
    → HasBelow n (receive_packet_from_splitter_server net epoll s).1
unfolding receive_packet_from_splitter_server
receive_packet-HasBelow n net epoll s h = >>>-keeps (HasBelow n) (read s) _ h (λ datagram t k.
    >>>-keeps (HasBelow n) (lift (Packet.parse datagram) t) _ k (λ p u l.
      >>>-keeps (HasBelow n) (lift (assert (not p.header.new_connection)) u) _ l (λ _ v m.
        >>>-keeps (HasBelow n) (lock v) _ (lock-HasBelow n v m) (λ _ w o.
          >>>-keeps (HasBelow n) (receive_known net epoll p (lookup p.header.uid w.connections) w) _
            (receive_known-HasBelow n net epoll p _ w refl o)
            (λ _ x q. >>>-keeps (HasBelow n) (unlock x) _ (unlock-HasBelow n x q) (λ _ _ z. z))))))
  where
    read : M (Splitter Callback ServerSocket) (List ℕ)
    read t =
        let (r, p) = (server_socket net.os).read t.other_side in (r, record t { other_side = p })

has_arrived :
    (net : Net) (epoll : EpollOs) (s t : Splitter Callback ServerSocket) (r : ResultType)
    → receive_packet_from_splitter_server net epoll s ≡ (ok r, t)
    → (datagram : List ℕ) × (net.read s.other_side.descriptor.fd buffer_size ≡ some datagram)
unfolding receive_packet_from_splitter_server FileDescriptor.read
has_arrived net epoll s t r e =
    elim (Option-cases (net.read s.other_side.descriptor.fd buffer_size)) [
      | inl failed ↦ cc (ap (λ x. x.0) (rw failed at e))
      | inr (datagram, arrived) ↦ (datagram, arrived)
    ]

-- A handler that works on the shared part only leaves the next id.
on_splitter-HasRoom :
    (n : ℕ) (call : M (Splitter Callback ServerSocket) ResultType) (s t : Client) (r : ResultType)
    → on_splitter call s ≡ (ok r, t)
    → ((u : Splitter Callback ServerSocket) → call s.splitter ≡ (ok r, u) → IsValid connection u)
    → HasBelow s.next_connection_uid (call s.splitter).1
    → HasRoom (suc n) s
    → HasRoom n t
on_splitter-HasRoom n call s t r e valid below h = subst (HasRoom n) (ap (λ x. x.1) e) (record {
  valid = valid _ (ap (λ x. (x.0, (call s.splitter).1)) e);
  fresh = record { below = below };
  room = omega (arith, h.room);
})

watch :
    (epoll : EpollOs) (n fd : ℕ) (c : Callback) (s t : Client)
    → ((uid : ℕ) → c ≢ connection uid)
    → on_splitter (add_action epoll fd c) s ≡ (ok tt, t)
    → HasRoom n s
    → HasRoom n t
watch epoll n fd c s t other e h =
    let u = (add_action epoll fd c s.splitter).1 in
    let (new, u-is) = add_action_ok epoll fd c s.splitter u (ap (λ x. (x.0, u)) e) in
    subst (HasRoom n) (ap (λ x. x.1) e) (record {
      valid =
          subst (λ x. IsValid connection x) (sym u-is)
            (record {
              free = h.valid.free;
              linked = Linked-watch connection connection-injective h.valid.linked fd _ other new;
            });
      fresh = record {
        below = subst (λ x. HasBelow s.next_connection_uid x) (sym u-is) h.fresh.below;
      };
      room = h.room;
    })

module _ (names : Resolver) where
  invoke-HasRoom :
      (net : Net) (epoll : EpollOs) (n : ℕ) (c : Callback) (s t : Client) (r : ResultType)
      → IsPosix net.os
      → invoke names net epoll c s ≡ (ok r, t)
      → HasRoom (suc n) s
      → HasRoom n t
  unfolding invoke
  invoke-HasRoom net epoll n (connection uid) s t r posix e h =
      on_splitter-HasRoom n
        (receive_bytes_from_tcp_connection net.os epoll (server_socket net.os) uid) s t r e
        (λ u run.
          receive_bytes-IsValid connection connection-injective net.os epoll (server_socket net.os)
            s.splitter u uid r h.valid run)
        (receive_bytes-HasBelow s.next_connection_uid net.os epoll (server_socket net.os) uid
          s.splitter h.fresh.below)
        h
  invoke-HasRoom net epoll n from_server s t r posix e h =
      on_splitter-HasRoom n (receive_packet_from_splitter_server net epoll) s t r e
        (λ u run.
          let (datagram, arrived) = has_arrived net epoll s.splitter u r run in
          receive_packet_from_server-IsValid net epoll s.splitter datagram h.valid.free arrived u r
            posix h.valid.linked run)
        (receive_packet-HasBelow s.next_connection_uid net epoll s.splitter h.fresh.below) h
  invoke-HasRoom net epoll n new_connection s t r posix e h =
      let m = handle_new_tcp_connection names net epoll s in
      let (_, done, after) = >>>-eq-ok m (λ _ u. (ok continue, u)) e in
      let run : m ≡ (ok tt, t) = λ i. (done i, (after i).1) in
      let no_wrap : s.next_connection_uid + 1 < 2 ^ 64 = omega (arith, h.room) in
      let (valid, fresh) = handle_new-IsValid names net epoll s h.valid t h.fresh no_wrap run in
      record {
        valid = valid;
        fresh = fresh;
        room =
            omega (arith, h.room, handle_new_next names net epoll s h.valid t h.fresh no_wrap run);
      }

  poll_once-HasRoom :
      (net : Net) (epoll : EpollOs) (n : ℕ) (s t : Client) (r : PollResult)
      → IsPosix net.os
      → poll_once names net epoll s ≡ (ok r, t)
      → HasRoom (ready epoll.wait + n) s
      → HasRoom n t
  unfolding poll_once
  poll_once-HasRoom net epoll n s t r posix e h =
      poll_keeps (λ (u : Client). u.epoller) (invoke names net epoll) _ _ HasRoom fewer
        (λ k c u v x run room. invoke-HasRoom net epoll k c u v x posix run room) epoll n s t r e
        (λ fds came. subst (λ o. HasRoom (ready o + n) s) came h)

  Reaches-HasRoom :
      (rounds : List (Net × EpollOs)) (n : ℕ) (s t : Client)
      → HasRoom (events rounds + n) s
      → All HasPosix rounds
      → Reaches names s rounds t
      → HasRoom n t
  Reaches-HasRoom [] n s t h posix at_start = subst (λ k. HasRoom k s) (omega arith) h
  Reaches-HasRoom (round ∷ rounds) n s t h posix (after_poll net epoll r before run) =
      poll_once-HasRoom net epoll n _ t r posix.0 run (
        Reaches-HasRoom rounds (ready epoll.wait + n) s _ (subst (λ k. HasRoom k s) (omega arith) h)
          posix.1 before)

  -- A client that has been constructed and whose `loop` has registered its listener and the socket
  -- to the server, on kernels that keep to read(2) and write(2): whatever connections and datagrams
  -- come, in any number of calls of `poll` with fewer than 2 ^ 64 - 1 ready descriptors in all, after
  -- each call that returns the mutex is free, every connection is watched under its id, every action
  -- of a connection has its connection, and all ids are below the next one.
  pub served-IsValid-IsFresh :
      (net : Net) (epoll : EpollOs) (epoll_create : Option ℕ)
      (listener_addr splitter_server_addr : Address) (s t u v : Client)
      (rounds : List (Net × EpollOs))
      → construct names net epoll_create listener_addr splitter_server_addr ≡ ok s
      → on_splitter (add_action epoll s.listener.fd new_connection) s ≡ (ok tt, t)
      → on_splitter (add_action epoll s.other_side.descriptor.fd from_server) t ≡ (ok tt, u)
      → events rounds + 1 < 2 ^ 64
      → All HasPosix rounds
      → Reaches names u rounds v
      → IsValid connection v.splitter × IsFresh v
  served-IsValid-IsFresh net epoll epoll_create listener_addr splitter_server_addr s t u v rounds
        made first second few posix reached =
      let (valid, fresh, _, first_id) =
        construct-IsValid-IsFresh names net epoll_create listener_addr splitter_server_addr s
          made in
      let room : HasRoom (events rounds + 0) s = record {
        valid = valid;
        fresh = fresh;
        room = omega (arith, first_id, few);
      } in
      let h =
        Reaches-HasRoom rounds 0 u v
          (watch epoll _ _ from_server t u (λ _ same. cc same) second
            (watch epoll _ _ new_connection s t (λ _ same. cc same) first room))
          posix reached in
      (h.valid, h.fresh)
