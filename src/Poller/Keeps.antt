-- ===== src/Poller/Keeps.antt =====
-- What the callbacks of a poller keep, its loop keeps.
use koho.Prelude.{
  ℕ, suc, Bool, Option, none, some, List, [], ◌∷◌, ◌==◌, get_elem?, if◌then◌else◌, Outcome, ok, M,
  ◌>>>◌, >>>-keeps, if-keeps, system_call,
}
use koho.FileDescriptor.{FileDescriptor}
use koho.Epoller.{ResultType, continue, cancel, exit, PollResult, poll_exit}
use koho.Poller.{
  Poller, Action, Pollfd, Revents, PollOs, any_polled, prepare, serve, ask, poll, call,
  after_callback, check_busy, happened,
}

module _ {κ} {S H : Type 0} (get : S → Poller H) (put : Poller H → S → S)
    (invoke : H → M S ResultType) (fd_of : H → S → FileDescriptor) (interested : H → S → Bool)
    (P : S → Type κ) (put_keeps : (p : Poller H) (s : S) → P s → P (put p s))
    (invoke_keeps : (h : H) (s : S) → P s → P (invoke h s).1) where
  check_busy_keeps :
      (before : ℕ) (a : Option (Action H)) (s : S)
      → P s
      → P (check_busy get put invoke fd_of interested before a s).1
  unfolding check_busy
  check_busy_keeps before none s h = h
  check_busy_keeps before (some a) s h = h

  after_callback_keeps :
      (i before : ℕ) (x : ResultType) (s : S)
      → P s
      → P (after_callback get put invoke fd_of interested i before x s).1
  unfolding after_callback
  after_callback_keeps i before continue s h = check_busy_keeps _ _ s h
  after_callback_keeps i before cancel s h = check_busy_keeps _ _ _ (put_keeps _ s h)
  after_callback_keeps i before (exit status) s h = h

  call_keeps :
      (i : ℕ) (a : Option (Action H)) (s : S)
      → P s
      → P (call get put invoke fd_of interested i a s).1
  unfolding call
  call_keeps i none s h = h
  call_keeps i (some a) s h =
      >>>-keeps P (invoke a.callback s) _ (invoke_keeps a.callback s h)
        (λ x t k. after_callback_keeps i _ x t k)

  or_result_keeps :
      (result : Option PollResult) (rest : Outcome PollResult × S) (t : S)
      → P rest.1
      → P t
      → P (elim result as (λ o. Outcome PollResult × S) [ none ↦ rest | some x ↦ (ok x, t) ]).1
  or_result_keeps none rest t h k = h
  or_result_keeps (some x) rest t h k = k

  serve_keeps :
      (i : ℕ) (ps : List Pollfd) (rs : List Revents) (s : S)
      → P s
      → P (serve get put invoke fd_of interested i ps rs s).1
  unfolding serve
  serve_keeps i [] rs s h = h
  serve_keeps i (p ∷ ps) [] s h = h
  serve_keeps i (p ∷ ps) (r ∷ rs) s h =
      if-keeps P r.error (ok (poll_exit 0), s) (served >>> go_on) h
        (>>>-keeps P served go_on
          (if-keeps P (happened p.events r) called (ok none, s)
            (call_keeps i (get_elem? (get s).actions i) s h) h)
          (λ result t k. or_result_keeps result _ t (serve_keeps (suc i) ps rs t k) k))
    where
      called : Outcome (Option PollResult) × S
      called = call get put invoke fd_of interested i (get_elem? (get s).actions i) s

      served : Outcome (Option PollResult) × S
      served = if happened p.events r then called else (ok none, s)

      go_on : Option PollResult → M S PollResult
      go_on result t = elim result [
        | none ↦ serve get put invoke fd_of interested (suc i) ps rs t
        | some x ↦ (ok x, t)
      ]

  -- Any state that the callbacks keep to, whatever the kernel answers.
  pub poll_keeps : (os : PollOs) (s : S) → P s → P (poll get put invoke fd_of interested os s).1
  unfolding poll ask
  poll_keeps os s h =
      >>>-keeps P (prepare get put invoke fd_of interested (get s).actions (get s).pollfds s, s) _ h
        (λ ps t k.
          let u = put (record (get t) { pollfds = ps }) t in
          let ready : P u = put_keeps _ t k in
          if-keeps P (any_polled ps) _ _
            (>>>-keeps P (system_call "poll" (os ps), u) _ ready
              (λ answer v l. if-keeps P (answer.0 == 0) _ _ l (serve_keeps 0 ps answer.1 v l)))
            ready)
