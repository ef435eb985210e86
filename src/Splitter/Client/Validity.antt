-- ===== src/Splitter/Client/Validity.antt =====
-- The invariant of the client, for every new connection, and the ids that it gives out.
use koho.Prelude.{
  ℕ, ◌+◌, ◌%◌, ◌^◌, ◌<◌, ◌≡◌, refl, sym, ap, subst, ◌∙◌, true, none, some, List, arith, lookup,
  insert, lookup_of_insert, Outcome, ok, thrown, aborted, undefined, running, ◌>>>◌, >>>-eq-ok, inl,
  inr, Option-cases, M, catching,
}
use koho.FileDescriptor.{FileDescriptor}
use koho.Address
use koho.Address.{Address, Resolver}
use koho.Text.{bytes}
use koho.Socket
use koho.Socket.{Net}
use koho.Epoller.{EpollOs}
use koho.Splitter.{Splitter, packet, lock, unlock, send, add_action}
use koho.Splitter.Invariant.{IsValid, Linked, Linked-insert, add_action_ok}
use koho.Splitter.Client.{
  Client, Callback, connection, ServerSocket, server_socket, on_splitter, get_connection_uid,
  try_new_tcp_connection, handle_new_tcp_connection, accept_connection, emplace,
}
use koho.Splitter.Client.Handlers.{connection-injective}
use koho.Splitter.Client.Accepting.{try-locked, unlocked_twice}

-- The ids of the connections are below the next one.
pub record IsFresh (s : Client) : Type 0 where
  pub below :
      (uid : ℕ) (c : FileDescriptor)
      → lookup uid s.connections ≡ some c
      → uid < s.next_connection_uid

-- What the `try` block leaves when it comes to its end.
record Tried (s t : Client) : Type 0 where
  socket : FileDescriptor
  linked : Linked connection t.connections t.epoller.actions
  locked : t.locked ≡ s.locked
  next : t.next_connection_uid ≡ (s.next_connection_uid + 1) % 2 ^ 64
  connections : t.connections ≡ insert s.next_connection_uid socket s.connections

on_splitter_ok :
    {A : Type 0} (m : M (Splitter Callback ServerSocket) A) (s t : Client) (a : A)
    → on_splitter m s ≡ (ok a, t)
    → m s.splitter ≡ (ok a, t.splitter)
on_splitter_ok m s t a e i = (((e i).0), (e i).1.splitter)

module _ (names : Resolver) (net : Net) (epoll : EpollOs) (s : Client)
    (linked : Linked connection s.connections s.epoller.actions)
    (fresh : lookup s.next_connection_uid s.connections ≡ none) where
  registered :
      (c : FileDescriptor) (u t : Client)
      → u.locked ≡ s.locked
      → u.epoller ≡ s.epoller
      → u.next_connection_uid ≡ (s.next_connection_uid + 1) % 2 ^ 64
      → u.connections ≡ insert s.next_connection_uid c s.connections
      → on_splitter (add_action epoll c.fd (connection s.next_connection_uid)) u ≡ (ok tt, t)
      → Tried s t
  registered c u t locked same next inserted e =
      let h = connection s.next_connection_uid in
      let (new, t-is) =
        add_action_ok epoll c.fd h u.splitter t.splitter
          (on_splitter_ok (add_action epoll c.fd h) u t tt e) in
      record {
        socket = c;
        linked =
            rw (t-is, inserted, same)
              (Linked-insert connection connection-injective linked s.next_connection_uid c fresh
                (ap (λ x. lookup c.fd x.actions) (sym same) ∙ new));
        locked = ap (λ x. x.locked) t-is ∙ locked;
        next = sym (ap (λ x. x.1.next_connection_uid) e) ∙ next;
        connections = ap (λ x. x.connections) t-is ∙ inserted;
      }

  tried : (t : Client) → try_new_tcp_connection names net epoll s ≡ (ok tt, t) → Tried s t
  unfolding try_new_tcp_connection get_connection_uid accept_connection emplace send
  tried t e =
      let uid = s.next_connection_uid in
      let (c, _, e₁) = >>>-eq-ok (accept_connection net (get_connection_uid s).1) _ e in
      let u = (accept_connection net (get_connection_uid s).1).1 in
      let v : Client = record u {
        splitter = record u.splitter { connections = insert uid c s.connections };
      } in
      let register =
        λ (x : Unit {0}) (y : Client). on_splitter (add_action epoll c.fd (connection uid)) y in
      let announce = λ (text : List ℕ) (y : Client).
        on_splitter (send (server_socket net.os) (packet true uid text)) y >>> register in
      let print =
        λ (dest : Address) (y : Client). (Address.str names dest (bytes ":"), y) >>> announce in
      let (dest, _, e₂) = >>>-eq-ok (Socket.original_dest net c, v) print (rw fresh at e₁) in
      let (text, _, e₃) = >>>-eq-ok (Address.str names dest (bytes ":"), v) announce e₂ in
      let m = on_splitter (send (server_socket net.os) (packet true uid text)) v in
      let (_, _, e₄) = >>>-eq-ok m register e₃ in registered c m.1 t refl refl refl refl e₄

-- The work after the `try` block returns only if the block has come to its end.
after_try :
    (m : Outcome (Unit {0}) × Client) (t : Client)
    → (catching m (λ _. on_splitter unlock) >>> λ _. on_splitter unlock) ≡ (ok tt, t)
    → m.1.locked ≡ true
    → (m.0 ≡ ok tt) × (on_splitter unlock m.1 ≡ (ok tt, t))
after_try (ok _, u) t e locked = (refl, e)
after_try (thrown x, u) t e locked =
    cc (ap (λ y. y.0) e, unlocked_twice (thrown x, u) x refl locked)
after_try (aborted, u) t e locked = cc (ap (λ y. y.0) e)
after_try (undefined, u) t e locked = cc (ap (λ y. y.0) e)
after_try (running, u) t e locked = cc (ap (λ y. y.0) e)

below-insert :
    (connections : List (ℕ × FileDescriptor)) (next : ℕ) (c : FileDescriptor)
    → ((uid : ℕ) (d : FileDescriptor) → lookup uid connections ≡ some d → uid < next)
    → (uid : ℕ) (d : FileDescriptor) → lookup uid (insert next c connections) ≡ some d
    → uid < next + 1
below-insert connections next c fresh uid d h = elim (lookup_of_insert next uid c d connections h) [
  | inl (key, _) ↦ omega (arith, key)
  | inr (_, old) ↦ omega (arith, fresh uid d old)
]

module _ (names : Resolver) (net : Net) (epoll : EpollOs) (s : Client)
    (valid : IsValid connection s.splitter) where
  abbrev with_lock : Client
  with_lock = record s { splitter = record s.splitter { locked = true } }

  unused_id : IsFresh s → lookup s.next_connection_uid s.connections ≡ none
  unused_id fresh = elim (Option-cases (lookup s.next_connection_uid s.connections)) [
    | inl unused ↦ unused
    | inr (c, used) ↦ absurd (omega (arith, fresh.below s.next_connection_uid c used))
  ]

  handled :
      (t : Client)
      → lookup s.next_connection_uid s.connections ≡ none
      → handle_new_tcp_connection names net epoll s ≡ (ok tt, t)
      → (u : Client) × Tried with_lock u × (on_splitter unlock u ≡ (ok tt, t))
  unfolding handle_new_tcp_connection lock
  handled t fresh e =
      let m = try_new_tcp_connection names net epoll with_lock in
      let (done, freed) =
        after_try m t (rw valid.free at e) (try-locked names net epoll with_lock refl) in
      (m.1, tried names net epoll with_lock valid.linked fresh m.1 (λ i. (done i, m.1)), freed)

  -- From a state of the client that satisfies the invariant and in which all ids are below the next
  -- one, which does not wrap: whatever the network answers, if the handler returns, the mutex is
  -- free again, every connection, the new one with them, is watched under its id, every action has
  -- its connection, and all ids are below the next one.
  pub handle_new-IsValid :
      (t : Client)
      → IsFresh s
      → s.next_connection_uid + 1 < 2 ^ 64
      → handle_new_tcp_connection names net epoll s ≡ (ok tt, t)
      → IsValid connection t.splitter × IsFresh t
  unfolding unlock
  handle_new-IsValid t fresh no_wrap e =
      let (u, h, freed) = handled t (unused_id fresh) e in
      let next : u.next_connection_uid ≡ s.next_connection_uid + 1 = omega (arith, h.next) in
      subst (λ v. IsValid connection v.splitter × IsFresh v) (ap (λ x. x.1) (rw h.locked at freed))
        (
          record { free = refl; linked = h.linked },
          record {
            below =
                rw (h.connections, next)
                  (below-insert s.connections s.next_connection_uid h.socket fresh.below);
          },
        )

  pub handle_new_next :
      (t : Client)
      → IsFresh s
      → s.next_connection_uid + 1 < 2 ^ 64
      → handle_new_tcp_connection names net epoll s ≡ (ok tt, t)
      → t.next_connection_uid ≡ s.next_connection_uid + 1
  unfolding unlock
  handle_new_next t fresh no_wrap e =
      let (u, h, freed) = handled t (unused_id fresh) e in
      let next : u.next_connection_uid ≡ s.next_connection_uid + 1 = omega (arith, h.next) in
      sym (ap (λ x. x.1.next_connection_uid) (rw h.locked at freed)) ∙ next
