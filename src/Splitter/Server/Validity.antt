-- ===== src/Splitter/Server/Validity.antt =====
-- The invariant of the server, for every packet that arrives.
use koho.Prelude.{
  ◌∷◌, ◌++◌, ℕ, ◌≡◌, refl, sym, ap, subst, ◌∙◌, Bool, true, false, not, none, List, [], lookup,
  insert, erase-insert, erase_absent, Outcome, ok, thrown, aborted, undefined, running, ◌>>>◌,
  >>>-eq-ok, lift, when,
}
use koho.FileDescriptor.{FileDescriptor}
use koho.FileDescriptor.Writes.{IsPosix}
use koho.Address.{Address, Resolver}
use koho.Socket
use koho.Socket.{Net, AutoSocket, auto_read, af_inet, sock_stream}
use koho.Epoller.{EpollOs, ResultType, continue}
use koho.Splitter.{packet, unlock, send, add_action}
use koho.Splitter.Invariant.{IsValid, Linked, Linked-insert, unlocked, add_action_ok}
use koho.Splitter.Delivery.{deliver_unlocked-IsValid}
use koho.Splitter.Server.{
  Server, connection, client_socket, parse_destination, open_connection,
  establish_new_tcp_connection, receive_packet_from_splitter_client,
}
use koho.Splitter.Server.Handlers.{
  connection-injective, malformed, dropped, opened, refused, passed_on,
  receive_packet_from_client_cases,
}

-- What a step leaves that returns: the mutex as it was, and maps that belong together.
abbrev Keeps : Server → Server → Type 0
Keeps s t = (t.locked ≡ s.locked) × Linked connection t.connections t.epoller.actions

module _ (net : Net) (epoll : EpollOs) (s : Server) (uid : ℕ) (dest : Address)
    (linked : Linked connection s.connections s.epoller.actions)
    (unknown : lookup uid s.connections ≡ none) where
  establish-Keeps :
      (b : Bool) (t : Server)
      → establish_new_tcp_connection net epoll uid dest s ≡ (ok b, t)
      → Keeps s t
  unfolding establish_new_tcp_connection
  establish-Keeps b t e = by_socket (Socket.new_socket net af_inet sock_stream) refl
    where
      by_connect :
          (c : FileDescriptor)
          → Socket.new_socket net af_inet sock_stream ≡ ok c
          → (q : Outcome ℕ) → Socket.connect net c dest ≡ q
          → Keeps s t
      by_connect c created (ok n) connects =
          let s₁ : Server = record s {
            connections = insert uid c s.connections;
            connects = s.connects ++ (c.fd, dest) ∷ [];
          } in
          let (_, added, e₁) =
            >>>-eq-ok (add_action epoll c.fd (connection uid) s₁) (λ _ u. (ok true, u))
              (rw (unknown, created, connects) at e) in
          let (new, u-is) =
            add_action_ok epoll c.fd (connection uid) s₁ _
              (λ i. (added i, (add_action epoll c.fd (connection uid) s₁).1)) in
          subst (λ u. Keeps s u) (sym u-is ∙ ap (λ x. x.1) e₁)
            (refl, Linked-insert connection connection-injective linked uid c unknown new)
      by_connect c created (thrown x) fails =
          subst (λ u. Keeps s u) (ap (λ x. x.1) (rw (unknown, created, fails) at e))
            (refl, rw (erase-insert, erase_absent uid s.connections unknown) linked)
      by_connect c created aborted fails = cc (ap (λ x. x.0) (rw (unknown, created, fails) at e))
      by_connect c created undefined fails = cc (ap (λ x. x.0) (rw (unknown, created, fails) at e))
      by_connect c created running fails = cc (ap (λ x. x.0) (rw (unknown, created, fails) at e))

      by_socket :
          (q : Outcome FileDescriptor) → Socket.new_socket net af_inet sock_stream ≡ q → Keeps s t
      by_socket (ok c) created = by_connect c created (Socket.connect net c dest) refl
      by_socket (thrown x) fails = cc (ap (λ x. x.0) (rw (unknown, fails) at e))
      by_socket aborted fails = cc (ap (λ x. x.0) (rw (unknown, fails) at e))
      by_socket undefined fails = cc (ap (λ x. x.0) (rw (unknown, fails) at e))
      by_socket running fails = cc (ap (λ x. x.0) (rw (unknown, fails) at e))

told :
    (names : Resolver) (net : Net) (uid : ℕ) (b : Bool) (s t : Server)
    → when (not b) (send (client_socket names net) (packet false uid [])) s ≡ (ok tt, t)
    → Linked connection s.connections s.epoller.actions
    → Keeps s t
unfolding send
told names net uid true s t e linked = subst (λ u. Keeps s u) (ap (λ x. x.1) e) (refl, linked)
told names net uid false s t e linked = subst (λ u. Keeps s u) (ap (λ x. x.1) e) (refl, linked)

open-Keeps :
    (names : Resolver) (net : Net) (epoll : EpollOs) (s t : Server) (uid : ℕ) (body : List ℕ)
    → Linked connection s.connections s.epoller.actions
    → lookup uid s.connections ≡ none
    → open_connection names net epoll (packet true uid body) s ≡ (ok tt, t)
    → Keeps s t
unfolding open_connection
open-Keeps names net epoll s t uid body linked unknown e =
    let (dest, _, e₁) = >>>-eq-ok (lift (parse_destination names body) s) _ e in
    let m = establish_new_tcp_connection net epoll uid dest s in
    let (b, done, e₂) =
      >>>-eq-ok m
        (λ success. when (not success) (send (client_socket names net) (packet false uid []))) e₁ in
    let (same, linked') =
      establish-Keeps net epoll s uid dest linked unknown b m.1 (λ i. (done i, m.1)) in
    let (same', linked'') = told names net uid b m.1 t e₂ linked' in (same' ∙ same, linked'')

module _ (names : Resolver) (net : Net) (epoll : EpollOs) (s t : Server) (datagram : List ℕ)
    (reader : AutoSocket) (r : ResultType) (posix : IsPosix net.os) (valid : IsValid connection s)
    (arrived : auto_read names net s.other_side ≡ (ok datagram, reader))
    (e : receive_packet_from_splitter_client names net epoll s ≡ (ok r, t)) where
  opened-IsValid :
      (u : Server) (uid : ℕ) (body : List ℕ)
      → u.locked ≡ true
      → Linked connection u.connections u.epoller.actions
      → lookup uid u.connections ≡ none
      → (open_connection names net epoll (packet true uid body) u >>> λ _ v.
          unlock v >>> λ _ w. (ok continue, w))
        ≡ (ok r, t)
      → IsValid connection t
  opened-IsValid u uid body locked linked unknown run =
      let m = open_connection names net epoll (packet true uid body) u in
      let (_, done, e') = >>>-eq-ok m (λ _ v. unlock v >>> λ _ w. (ok continue, w)) run in
      let (same, linked') =
        open-Keeps names net epoll u m.1 uid body linked unknown (λ i. (done i, m.1)) in
      unlocked connection m.1 t continue r (same ∙ locked) e' linked'

  -- From a state of the server that satisfies the invariant, on a kernel that keeps to read(2) and
  -- write(2): whatever datagram is read and whatever the network answers, if the handler returns,
  -- the mutex is free again, every connection is watched under its id, and every action has its
  -- connection.
  pub receive_packet_from_client-IsValid : IsValid connection t
  receive_packet_from_client-IsValid =
      elim (receive_packet_from_client_cases names net epoll s datagram reader valid.free arrived) [
        | malformed x _ run ↦ cc (ap (λ y. y.0) e, ap (λ y. y.0) run)
        | dropped uid body _ _ run ↦
            subst (λ u. IsValid connection u) (ap (λ y. y.1) (sym run ∙ e))
              (record { free = valid.free; linked = valid.linked })
        | opened uid body _ unknown run ↦
            opened-IsValid (record s { other_side = reader; locked = true }) uid body refl
              valid.linked unknown (sym run ∙ e)
        | refused _ _ _ _ _ run ↦ cc (ap (λ y. y.0) e, ap (λ y. y.0) run)
        | passed_on uid body c _ known run ↦
            deliver_unlocked-IsValid connection connection-injective net.os epoll
              (client_socket names net) posix (record s { other_side = reader; locked = true }) t
              uid c body continue r refl known valid.linked (sym run ∙ e)
      ]
