-- ===== src/Splitter/Invariant.antt =====
-- The connections of a splitter and the actions of its epoller belong together.
use koho.Prelude.{
  ◌≢◌, ◌∙◌, ℕ, ◌≡◌, refl, sym, Option-cases, ap, subst, ok, ◌>>>◌, true, false, none, some, List,
  arith, lookup, insert, erase, lookup-insert, lookup-erase, lookup_of_erase, lookup_of_insert,
  Bool-cases, ◌==◌, inl, inr,
}
use koho.FileDescriptor.{FileDescriptor}
use koho.Epoller
use koho.Epoller.{Action, incoming, ResultType, EpollOs}
use koho.Splitter.{Splitter, unlock, add_action}

abbrev pub Connections : Type 0
Connections = List (ℕ × FileDescriptor)

module _ {H : Type 0} (conn : ℕ → H) where
  abbrev pub action_for : ℕ → Action H
  action_for uid = record { direction = incoming; callback = conn uid }

  -- Every connection is watched, under its own id, and every action of a connection refers to a socket
  -- that is there.
  pub record Linked (connections : Connections) (actions : List (ℕ × Action H)) : Type 0 where
    pub watched :
        (uid : ℕ) (c : FileDescriptor)
        → lookup uid connections ≡ some c
        → lookup c.fd actions ≡ some (action_for uid)
    pub alive :
        (fd uid : ℕ) (a : Action H)
        → lookup fd actions ≡ some a
        → a.callback ≡ conn uid
        → (c : FileDescriptor) × (lookup uid connections ≡ some c) × (c.fd ≡ fd)

  -- Between two events: the mutex is free, and the maps belong together.
  pub record IsValid {P : Type 0} (s : Splitter H P) : Type 0 where
    pub free : s.locked ≡ false
    pub linked : Linked s.connections s.epoller.actions

module _ {H : Type 0} (conn : ℕ → H) (conn-injective : (a b : ℕ) → conn a ≡ conn b → a ≡ b)
    {connections : Connections} {actions : List (ℕ × Action H)}
    (v : Linked conn connections actions) where
  -- A connection's action and the connection go together.
  pub Linked-erase :
      (uid : ℕ) (c : FileDescriptor)
      → lookup uid connections ≡ some c
      → Linked conn (erase uid connections) (erase c.fd actions)
  Linked-erase uid c e = record { watched = watched; alive = alive }
    where
      watched :
          (u : ℕ) (d : FileDescriptor)
          → lookup u (erase uid connections) ≡ some d
          → lookup d.fd (erase c.fd actions) ≡ some (action_for conn u)
      watched u d h = ground (
        arith,
        lookup-erase uid u connections,
        lookup-erase c.fd d.fd actions,
        v.watched uid c e,
        v.watched u d,
        conn-injective uid u,
      )

      alive :
          (fd u : ℕ) (a : Action H)
          → lookup fd (erase c.fd actions) ≡ some a
          → a.callback ≡ conn u
          → (d : FileDescriptor) × (lookup u (erase uid connections) ≡ some d) × (d.fd ≡ fd)
      alive fd u a h k =
          let (other, there) = lookup_of_erase c.fd fd a actions h in
          let (d, found, same) = v.alive fd u a there k in
          (d, ground (arith, lookup-erase uid u connections), same)

  -- A socket may change in anything but its number.
  pub Linked-update :
      (uid : ℕ) (c d : FileDescriptor)
      → lookup uid connections ≡ some c
      → d.fd ≡ c.fd
      → Linked conn (insert uid d connections) actions
  Linked-update uid c d e same = record { watched = watched; alive = alive }
    where
      watched :
          (u : ℕ) (x : FileDescriptor)
          → lookup u (insert uid d connections) ≡ some x
          → lookup x.fd actions ≡ some (action_for conn u)
      watched u x h = elim (lookup_of_insert uid u d x connections h) [
        | inl (key, value) ↦ rw (← value, same, ← key) (v.watched uid c e)
        | inr (_, old) ↦ v.watched u x old
      ]

      alive :
          (fd u : ℕ) (a : Action H)
          → lookup fd actions ≡ some a
          → a.callback ≡ conn u
          → (x : FileDescriptor) × (lookup u (insert uid d connections) ≡ some x) × (x.fd ≡ fd)
      alive fd u a h k = elim (Bool-cases (uid == u)) [
        | inl hit ↦
            let (x, found, number) = v.alive fd u a h k in
            (d, ground (arith, lookup-insert uid u d connections), ground arith)
        | inr miss ↦
            let (x, found, number) = v.alive fd u a h k in
            (x, ground (arith, lookup-insert uid u d connections), number)
      ]

  -- A new id and a new descriptor make a new connection.
  pub Linked-insert :
      (uid : ℕ) (c : FileDescriptor)
      → lookup uid connections ≡ none
      → lookup c.fd actions ≡ none
      → Linked conn (insert uid c connections) (insert c.fd (action_for conn uid) actions)
  Linked-insert uid c new_uid new_fd = record { watched = watched; alive = alive }
    where
      watched :
          (u : ℕ) (x : FileDescriptor)
          → lookup u (insert uid c connections) ≡ some x
          → lookup x.fd (insert c.fd (action_for conn uid) actions) ≡ some (action_for conn u)
      watched u x h = elim (lookup_of_insert uid u c x connections h) [
        | inl (key, value) ↦
            rw (← value, ← key)
              (ground (arith, lookup-insert c.fd c.fd (action_for conn uid) actions))
        | inr (_, old) ↦
            ground (arith, v.watched u x old, lookup-insert c.fd x.fd (action_for conn uid) actions)
      ]

      alive :
          (fd u : ℕ) (a : Action H)
          → lookup fd (insert c.fd (action_for conn uid) actions) ≡ some a
          → a.callback ≡ conn u
          → (x : FileDescriptor) × (lookup u (insert uid c connections) ≡ some x) × (x.fd ≡ fd)
      alive fd u a h k = elim (lookup_of_insert c.fd fd (action_for conn uid) a actions h) [
        | inl (number, value) ↦
            (c, ground (arith, conn-injective uid u, lookup-insert uid u c connections), number)
        | inr (_, old) ↦
            let (x, found, number) = v.alive fd u a old k in
            (x, ground (arith, lookup-insert uid u c connections), number)
      ]

  -- An action that is not of a connection may be added for a new descriptor.
  pub Linked-watch :
      (fd : ℕ) (a : Action H)
      → ((uid : ℕ) → a.callback ≢ conn uid)
      → lookup fd actions ≡ none
      → Linked conn connections (insert fd a actions)
  Linked-watch fd a other new_fd = record { watched = watched; alive = alive }
    where
      watched :
          (u : ℕ) (x : FileDescriptor)
          → lookup u connections ≡ some x
          → lookup x.fd (insert fd a actions) ≡ some (action_for conn u)
      watched u x h = ground (arith, v.watched u x h, lookup-insert fd x.fd a actions)

      alive :
          (n u : ℕ) (b : Action H)
          → lookup n (insert fd a actions) ≡ some b
          → b.callback ≡ conn u
          → (x : FileDescriptor) × (lookup u connections ≡ some x) × (x.fd ≡ n)
      alive n u b h k = elim (lookup_of_insert fd n a b actions h) [
        | inl (_, value) ↦ absurd (other u (ap (λ x. x.callback) value ∙ k))
        | inr (_, old) ↦ v.alive n u b old k
      ]

module _ {H P : Type 0} (conn : ℕ → H) where
  pub unlocked :
      (s t : Splitter H P) (r r' : ResultType)
      → s.locked ≡ true
      → (unlock s >>> λ _ u. (ok r, u)) ≡ (ok r', t)
      → Linked conn s.connections s.epoller.actions
      → IsValid conn t
  unfolding unlock
  unlocked s t r r' locked e linked =
      subst (λ u. IsValid conn u) (ap (λ x. x.1) (rw locked at e))
        (record { free = refl; linked = linked })

-- A registration that returns has found no action for the descriptor, and has made one.
pub add_action_ok :
    {H P : Type 0} (epoll : EpollOs) (fd : ℕ) (h : H) (s t : Splitter H P)
    → add_action epoll fd h s ≡ (ok tt, t)
    → (lookup fd s.epoller.actions ≡ none)
      × (t ≡ record s {
        epoller = record s.epoller {
          actions = insert fd (record { direction = incoming; callback = h }) s.epoller.actions;
        };
      })
unfolding add_action Epoller.add_action
add_action_ok epoll fd h s t e = elim (Option-cases (lookup fd s.epoller.actions)) [
  | inl new ↦ elim (Option-cases (epoll.ctl_add fd)) [
    | inl failed ↦ cc (ap (λ x. x.0) (rw (new, failed) at e))
    | inr (n, added) ↦ (new, sym (ap (λ x. x.1) (rw (new, added) at e)))
  ]
  | inr (a, old) ↦ cc (ap (λ x. x.0) (rw old at e))
]
