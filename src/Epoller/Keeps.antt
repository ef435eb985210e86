-- ===== src/Epoller/Keeps.antt =====
-- What the callbacks of an epoller keep when they return, a call of its `poll` that returns keeps.
use koho.Prelude.{
  ℕ, zero, suc, ◌+◌, ◌≡◌, ap, subst, Option, none, some, List, [], ◌∷◌, arith, lookup, length,
  Outcome, ok, M, >>>-eq-ok, Option-cases, inl, inr,
}
use koho.Epoller.{
  Epoller, EpollOs, Action, ResultType, continue, cancel, exit, PollResult, service, service_action,
  after_callback, busy_wait, poll, poll_events,
}

-- The number is a bound on the callbacks that are still to come.
module _ {κ} {S H : Type 0} (get : S → Epoller H) (invoke : H → M S ResultType)
    (read_count write_count : H → S → ℕ) (P : ℕ → S → Type κ)
    (fewer : (n : ℕ) (s : S) → P (suc n) s → P n s)
    (invoke_keeps : (n : ℕ) (h : H) (s t : S) (r : ResultType)
      → invoke h s ≡ (ok r, t)
      → P (suc n) s
      → P n t) where
  checked_same :
      (fd before : ℕ) (a : Option (Action H)) (s t : S) (o : Option PollResult)
      → busy_wait get invoke read_count write_count fd before a s ≡ (ok o, t)
      → s ≡ t
  unfolding busy_wait
  checked_same fd before none s t o e = ap (λ x. x.1) e
  checked_same fd before (some a) s t o e = ap (λ x. x.1) e

  after_callback_same :
      (fd before : ℕ) (r : ResultType) (s t : S) (o : Option PollResult)
      → after_callback get invoke read_count write_count fd before r s ≡ (ok o, t)
      → s ≡ t
  unfolding after_callback
  after_callback_same fd before (exit status) s t o e = ap (λ x. x.1) e
  after_callback_same fd before continue s t o e = checked_same fd before _ s t o e
  after_callback_same fd before cancel s t o e = checked_same fd before _ s t o e

  service_keeps :
      (n fd : ℕ) (s t : S) (o : Option PollResult)
      → service get invoke read_count write_count fd s ≡ (ok o, t)
      → P (suc n) s
      → P n t
  unfolding service service_action
  service_keeps n fd s t o e h = elim (Option-cases (lookup fd (get s).actions)) [
    | inl absent ↦ subst (P n) (ap (λ x. x.1) (rw absent at e)) (fewer n s h)
    | inr (a, found) ↦
        let run = invoke a.callback s in
        let (r, done, after) = >>>-eq-ok run _ (rw found at e) in
        subst (P n) (after_callback_same fd _ r run.1 t o after)
          (invoke_keeps n a.callback s run.1 r (ap (λ x. (x, run.1)) done) h)
  ]

  zero_plus : (n : ℕ) → zero + n ≡ n
  zero_plus n = omega arith

  suc_plus : (k n : ℕ) → suc k + n ≡ suc (k + n)
  suc_plus k n = omega arith

  at_last : (k n : ℕ) (s : S) → P (k + n) s → P n s
  at_last zero n s h = subst (λ m. P m s) (zero_plus n) h
  at_last (suc k) n s h = at_last k n s (fewer (k + n) s (subst (λ m. P m s) (suc_plus k n) h))

  or_result :
      (o : Option PollResult) (k n : ℕ) (s t : S) (r : PollResult) (rest : Outcome PollResult × S)
      → (rest ≡ (ok r, t) → P (k + n) s → P n t)
      → P (k + n) s
      → elim o as (λ x. Outcome PollResult × S) [ none ↦ rest | some x ↦ (ok x, s) ] ≡ (ok r, t)
      → P n t
  or_result none k n s t r rest go_on h e = go_on e h
  or_result (some x) k n s t r rest go_on h e = subst (P n) (ap (λ y. y.1) e) (at_last k n s h)

  poll_events_keeps :
      (fds : List ℕ) (n : ℕ) (s t : S) (r : PollResult)
      → poll_events get invoke read_count write_count fds s ≡ (ok r, t)
      → P (length fds + n) s
      → P n t
  unfolding poll_events
  poll_events_keeps [] n s t r e h =
      subst (P n) (ap (λ x. x.1) e) (subst (λ m. P m s) (zero_plus n) h)
  poll_events_keeps (fd ∷ fds) n s t r e h =
      let run = service get invoke read_count write_count fd s in
      let (o, done, after) = >>>-eq-ok run _ e in
      or_result o (length fds) n run.1 t r (poll_events get invoke read_count write_count fds run.1)
        (λ e'. poll_events_keeps fds n run.1 t r e')
        (service_keeps (length fds + n) fd s run.1 o (ap (λ x. (x, run.1)) done)
          (subst (λ m. P m s) (suc_plus (length fds) n) h))
        after

  pub poll_keeps :
      (os : EpollOs) (n : ℕ) (s t : S) (r : PollResult)
      → poll get invoke read_count write_count os s ≡ (ok r, t)
      → ((fds : List ℕ) → os.wait ≡ some fds → P (length fds + n) s)
      → P n t
  unfolding poll
  poll_keeps os n s t r e h = elim (Option-cases os.wait) [
    | inl failed ↦ cc (ap (λ x. x.0) (rw failed at e))
    | inr (fds, ready) ↦ poll_events_keeps fds n s t r (rw ready at e) (h fds ready)
  ]
