-- ===== src/Poller/Laws.antt =====
-- What a call of `poll` asks the kernel, and what it does with each descriptor.
use koho.Prelude.{
  ℕ, zero, suc, ◌≡◌, refl, ◌≢◌, ◌⊎◌, inl, inr, Bool, true, false, Option, none, some, List, [], ◌∷◌,
  ◌==◌, arith, get_elem?, Outcome, if◌then◌else◌, ok, thrown, aborted, undefined, running,
  runtime_error, out_of_range, system_call, M, ◌>>>◌, Bool-cases, Option-cases,
}
use koho.FileDescriptor.{FileDescriptor}
use koho.Epoller.{
  Direction, ResultType, continue, cancel, exit, PollResult, poll_success, poll_timeout, poll_exit,
}
use koho.Poller.{
  Poller, Action, Pollfd, Revents, PollOs, any_polled, deactivate, events_for, prepare,
  service_count, serve, ask, poll, after_callback, check_busy, happened,
}

-- An action that has been cancelled is inactive, and no other action has changed.
pub deactivate_lem :
    {H : Type 0} (i j : ℕ) (l : List (Action H)) (a : Action H)
    → get_elem? l j ≡ some a
    → get_elem? (deactivate i l) j ≡ some (if i == j then record a { active = false } else a)
unfolding deactivate
deactivate_lem i j [] a h = cc
deactivate_lem zero zero (b ∷ l) a h = ground arith
deactivate_lem zero (suc j) (b ∷ l) a h = ground arith
deactivate_lem (suc i) zero (b ∷ l) a h = ground arith
deactivate_lem (suc i) (suc j) (b ∷ l) a h = ground (arith, deactivate_lem i j l a)

module _ {S H : Type 0} (get : S → Poller H) (put : Poller H → S → S) (invoke : H → M S ResultType)
    (fd_of : H → S → FileDescriptor) (interested : H → S → Bool) where
  abbrev events : Action H → S → Option Direction
  events = events_for get put invoke fd_of interested

  -- Each pollfd has the descriptor of its action.
  abbrev pub Matching : List (Action H) → List Pollfd → S → Type 0
  Matching [] [] s = Unit {0}
  Matching [] (p ∷ ps) s = ⊥
  Matching (a ∷ l) [] s = ⊥
  Matching (a ∷ l) (p ∷ ps) s = (p.fd ≡ (fd_of a.callback s).fd) × Matching l ps s

  -- what the actions want to be polled for
  abbrev pub wanted : List (Action H) → S → List Pollfd
  wanted [] s = []
  wanted (a ∷ l) s = (record { fd = (fd_of a.callback s).fd; events = events a s }) ∷ wanted l s

  prepare_lem :
      (l : List (Action H)) (ps : List Pollfd) (s : S)
      → Matching l ps s
      → prepare get put invoke fd_of interested l ps s ≡ ok (wanted l s)
  unfolding prepare
  prepare_lem [] [] s h = refl
  prepare_lem [] (p ∷ ps) s h = absurd h
  prepare_lem (a ∷ l) [] s h = absurd h
  prepare_lem (a ∷ l) (p ∷ ps) s h =
      let same : (p.fd == (fd_of a.callback s).fd) ≡ true = ground (arith, h.0) in
      rw (same, prepare_lem l ps s h.1, h.0)

  -- When each pollfd has the descriptor of its action: the kernel is asked for just what the
  -- actions want, and the descriptors are served unless the call fails or the time is out; if none
  -- of the actions wants anything, the kernel is not asked, and the loop is told to end.
  pub poll_asks :
      (os : PollOs) (s : S)
      → Matching (get s).actions (get s).pollfds s
      → let ps = wanted (get s).actions s in
        let u = put (record (get s) { pollfds = ps }) s in
        ((any_polled ps ≡ true)
          × (poll get put invoke fd_of interested os s ≡ (
              (system_call "poll" (os ps), u) >>> λ answer t.
              if answer.0 == 0
              then (ok poll_timeout, t)
              else serve get put invoke fd_of interested 0 ps answer.1 t)))
        ⊎ ((any_polled ps ≡ false)
            × (poll get put invoke fd_of interested os s ≡ (ok (poll_exit 0), u)))
  unfolding poll ask
  poll_asks os s h =
      let prepared = prepare_lem (get s).actions (get s).pollfds s h in
      elim (Bool-cases (any_polled (wanted (get s).actions s))) [
        | inl yes' ↦ inl (yes', rw (prepared, yes'))
        | inr no' ↦ inr (no', rw (prepared, no'))
      ]

-- the result of a callback that lets the loop go on
abbrev pub GoesOn : ResultType → Type 0
GoesOn r = (r ≡ continue) ⊎ (r ≡ cancel)

module _ {S H : Type 0} (get : S → Poller H) (put : Poller H → S → S) (invoke : H → M S ResultType)
    (fd_of : H → S → FileDescriptor) (interested : H → S → Bool) where
  -- the state after the result of a callback has been taken
  abbrev pub settle : ℕ → ResultType → S → S
  settle i continue s = s
  settle i cancel s = put (record (get s) { actions = deactivate i (get s).actions }) s
  settle i (exit status) s = s

  abbrev count : Action H → S → ℕ
  count = service_count get put invoke fd_of interested

  abbrev rest_of : ℕ → List Pollfd → List Revents → M S PollResult
  rest_of = serve get put invoke fd_of interested

  -- How the loop of `poll` goes on at the descriptor `i`. An error on the descriptor ends the loop
  -- before its callback; a descriptor at which nothing has happened that was asked for is passed over.
  -- Otherwise the callback of its action runs; if that fails, so does the loop, and if it asks for an
  -- exit, the loop ends. A result `Cancel` makes the action inactive. Then a descriptor that has not
  -- been read or written throws, and otherwise the loop goes on.
  pub data Served (i : ℕ) (p : Pollfd) (ps : List Pollfd) (r : Revents) (rs : List Revents) (s : S)
      (run : Outcome PollResult × S) : Type 0 where
    broken : r.error ≡ true → run ≡ (ok (poll_exit 0), s) → Served i p ps r rs s run
    quiet :
        r.error ≡ false
        → happened p.events r ≡ false
        → run ≡ rest_of (suc i) ps rs s
        → Served i p ps r rs s run
    unknown :
        r.error ≡ false
        → happened p.events r ≡ true
        → get_elem? (get s).actions i ≡ none
        → run ≡ (thrown out_of_range, s)
        → Served i p ps r rs s run
    failed :
        r.error ≡ false
        → happened p.events r ≡ true
        → (a : Action H) → get_elem? (get s).actions i ≡ some a
        → run ≡ (invoke a.callback s >>> λ _ t. (ok poll_success, t))
        → run.0 ≢ ok poll_success
        → Served i p ps r rs s run
    exited :
        r.error ≡ false
        → happened p.events r ≡ true
        → (a : Action H) (status : ℕ) (t : S) → get_elem? (get s).actions i ≡ some a
        → invoke a.callback s ≡ (ok (exit status), t)
        → run ≡ (ok (poll_exit status), t)
        → Served i p ps r rs s run
    lost :
        r.error ≡ false
        → happened p.events r ≡ true
        → (a : Action H) (x : ResultType) (t : S) → get_elem? (get s).actions i ≡ some a
        → invoke a.callback s ≡ (ok x, t)
        → get_elem? (get (settle i x t)).actions i ≡ none
        → run ≡ (thrown out_of_range, settle i x t)
        → Served i p ps r rs s run
    idle :
        r.error ≡ false
        → happened p.events r ≡ true
        → (a b : Action H) (x : ResultType) (t : S) → get_elem? (get s).actions i ≡ some a
        → invoke a.callback s ≡ (ok x, t)
        → GoesOn x
        → get_elem? (get (settle i x t)).actions i ≡ some b
        → count a s ≡ count b (settle i x t)
        → run ≡ (
          thrown (runtime_error "Poller: busy wait detected: callback did not read/write fd"),
          settle i x t,
        )
        → Served i p ps r rs s run
    serviced :
        r.error ≡ false
        → happened p.events r ≡ true
        → (a b : Action H) (x : ResultType) (t : S) → get_elem? (get s).actions i ≡ some a
        → invoke a.callback s ≡ (ok x, t)
        → GoesOn x
        → get_elem? (get (settle i x t)).actions i ≡ some b
        → count a s ≢ count b (settle i x t)
        → run ≡ rest_of (suc i) ps rs (settle i x t)
        → Served i p ps r rs s run

  module _ (i : ℕ) (p : Pollfd) (ps : List Pollfd) (r : Revents) (rs : List Revents) (s : S)
      (whole : r.error ≡ false) (event : happened p.events r ≡ true) (a : Action H)
      (there : get_elem? (get s).actions i ≡ some a) where
    abbrev this_run : Outcome PollResult × S
    this_run = rest_of i (p ∷ ps) (r ∷ rs) s

    goes_on :
        (x : ResultType) (t : S)
        → invoke a.callback s ≡ (ok x, t)
        → GoesOn x
        → this_run ≡ (
            check_busy get put invoke fd_of interested
              (count a s)
              (get_elem? (get (settle i x t)).actions i)
              (settle i x t)
            >>> λ result u. elim result [ none ↦ rest_of (suc i) ps rs u | some y ↦ (ok y, u) ])
        → Served i p ps r rs s this_run
    unfolding check_busy
    goes_on x t e goes run = elim (Option-cases (get_elem? (get (settle i x t)).actions i)) [
      | inl gone ↦ lost whole event a x t there e gone (rw gone at run)
      | inr (b, still) ↦ elim (Bool-cases (count a s == count b (settle i x t))) [
        | inl same ↦
            idle whole event a b x t there e goes still (ground arith) (rw (still, same) at run)
        | inr other ↦
            serviced whole event a b x t there e goes still (ground arith)
              (rw (still, other) at run)
      ]
    ]

    by_outcome :
        (o : Outcome ResultType) (t : S)
        → invoke a.callback s ≡ (o, t)
        → Served i p ps r rs s this_run
    unfolding serve after_callback
    by_outcome (ok continue) t e = goes_on continue t e (inl refl) (rw (event, whole, there, e))
    by_outcome (ok cancel) t e = goes_on cancel t e (inr refl) (rw (event, whole, there, e))
    by_outcome (ok (exit status)) t e =
        exited whole event a status t there e (rw (event, whole, there, e))
    by_outcome (thrown x) t e =
        failed whole event a there (rw (event, whole, there, e))
          (λ q. cc (rw (event, whole, there, e) at q))
    by_outcome aborted t e =
        failed whole event a there (rw (event, whole, there, e))
          (λ q. cc (rw (event, whole, there, e) at q))
    by_outcome undefined t e =
        failed whole event a there (rw (event, whole, there, e))
          (λ q. cc (rw (event, whole, there, e) at q))
    by_outcome running t e =
        failed whole event a there (rw (event, whole, there, e))
          (λ q. cc (rw (event, whole, there, e) at q))

  -- At every descriptor the loop of `poll` goes on in one of the eight ways of `Served`, whatever
  -- the callback does.
  pub serve_cases :
      (i : ℕ) (p : Pollfd) (ps : List Pollfd) (r : Revents) (rs : List Revents) (s : S)
      → Served i p ps r rs s (rest_of i (p ∷ ps) (r ∷ rs) s)
  unfolding serve
  serve_cases i p ps r rs s = elim (Bool-cases r.error) [
    | inl bad ↦ broken bad (rw bad)
    | inr whole ↦ elim (Bool-cases (happened p.events r)) [
      | inr calm ↦ quiet whole calm (rw (calm, whole))
      | inl event ↦ elim (Option-cases (get_elem? (get s).actions i)) [
        | inl missing ↦ unknown whole event missing (rw (event, whole, missing))
        | inr (a, there) ↦
            by_outcome i p ps r rs s whole event a there (invoke a.callback s).0
              (invoke a.callback s).1 refl
      ]
    ]
  ]
