-- ===== src/Epoller/Laws.antt =====
-- What a call of `poll` does with each ready descriptor, and what it keeps.
use koho.Prelude.{
  ℕ, ◌≡◌, refl, ap, ◌≢◌, ◌⊎◌, inl, inr, Option, none, some, List, ◌∷◌, ◌==◌, arith, lookup, Outcome,
  ok, thrown, aborted, undefined, running, throw_from, M, ◌>>>◌, Option-cases, Bool-cases,
}
use koho.Epoller.{
  Epoller, EpollOs, Action, ResultType, continue, cancel, exit, PollResult, poll_exit,
  service_count, service, after_callback, busy_wait, poll,
}

-- A callback that lets the loop go on.
abbrev pub GoesOn : ResultType → Type 0
GoesOn r = (r ≡ continue) ⊎ (r ≡ cancel)

module _ {S H : Type 0} (get : S → Epoller H) (invoke : H → M S ResultType)
    (read_count write_count : H → S → ℕ) where
  abbrev count : Action H → S → ℕ
  count = service_count get invoke read_count write_count

  -- How a ready descriptor is served. One without an action is passed over. Otherwise its callback
  -- runs; if that fails, so does the round, and if it asks for an exit, the loop ends. After any other
  -- callback the action is read again: if it has been erased meanwhile, that is undefined behaviour; if
  -- its descriptor has not been read or written, the round throws; else the loop goes on.
  pub data Serviced (fd : ℕ) (s : S) (run : Outcome (Option PollResult) × S) : Type 0 where
    absent : lookup fd (get s).actions ≡ none → run ≡ (ok none, s) → Serviced fd s run
    failed :
        (a : Action H)
        → lookup fd (get s).actions ≡ some a
        → run ≡ (invoke a.callback s >>> λ _ t. (ok none, t))
        → run.0 ≢ ok none
        → Serviced fd s run
    exited :
        (a : Action H) (status : ℕ) (t : S)
        → lookup fd (get s).actions ≡ some a
        → invoke a.callback s ≡ (ok (exit status), t)
        → run ≡ (ok (some (poll_exit status)), t)
        → Serviced fd s run
    erased :
        (a : Action H) (r : ResultType) (t : S)
        → lookup fd (get s).actions ≡ some a
        → invoke a.callback s ≡ (ok r, t)
        → GoesOn r
        → lookup fd (get t).actions ≡ none
        → run ≡ (undefined, t)
        → Serviced fd s run
    idle :
        (a b : Action H) (r : ResultType) (t : S)
        → lookup fd (get s).actions ≡ some a
        → invoke a.callback s ≡ (ok r, t)
        → GoesOn r
        → lookup fd (get t).actions ≡ some b
        → count b t ≡ count a s
        → run ≡ (throw_from fd "Epoller: busy wait detected: callback did not read/write fd ", t)
        → Serviced fd s run
    served :
        (a b : Action H) (r : ResultType) (t : S)
        → lookup fd (get s).actions ≡ some a
        → invoke a.callback s ≡ (ok r, t)
        → GoesOn r
        → lookup fd (get t).actions ≡ some b
        → count b t ≢ count a s
        → run ≡ (ok none, t)
        → Serviced fd s run

  module _ (fd : ℕ) (s : S) (a : Action H) (there : lookup fd (get s).actions ≡ some a) where
    ran :
        (o : Outcome ResultType) (t : S)
        → invoke a.callback s ≡ (o, t)
        → service get invoke read_count write_count fd s
          ≡ ((o, t) >>> after_callback get invoke read_count write_count fd (count a s))
    unfolding service
    ran o t e = rw (there, e)

    goes_on :
        (r : ResultType) (t : S)
        → invoke a.callback s ≡ (ok r, t)
        → GoesOn r
        → service get invoke read_count write_count fd s
          ≡ busy_wait get invoke read_count write_count fd (count a s) (lookup fd (get t).actions) t
        → Serviced fd s (service get invoke read_count write_count fd s)
    unfolding busy_wait
    goes_on r t e goes run = elim (Option-cases (lookup fd (get t).actions)) [
      | inl gone ↦ erased a r t there e goes gone (rw gone at run)
      | inr (b, still) ↦ elim (Bool-cases (count b t == count a s)) [
        | inl same ↦ idle a b r t there e goes still (ground arith) (rw (still, same) at run)
        | inr other ↦ served a b r t there e goes still (ground arith) (rw (still, other) at run)
      ]
    ]

    by_outcome :
        (o : Outcome ResultType) (t : S)
        → invoke a.callback s ≡ (o, t)
        → Serviced fd s (service get invoke read_count write_count fd s)
    unfolding after_callback
    by_outcome (ok continue) t e = goes_on continue t e (inl refl) (ran (ok continue) t e)
    by_outcome (ok cancel) t e = goes_on cancel t e (inr refl) (ran (ok cancel) t e)
    by_outcome (ok (exit status)) t e = exited a status t there e (ran (ok (exit status)) t e)
    by_outcome (thrown x) t e =
        failed a there (rw e (ran (thrown x) t e)) (λ q. cc (ap (λ y. y.0) (ran (thrown x) t e), q))
    by_outcome aborted t e =
        failed a there (rw e (ran aborted t e)) (λ q. cc (ap (λ y. y.0) (ran aborted t e), q))
    by_outcome undefined t e =
        failed a there (rw e (ran undefined t e)) (λ q. cc (ap (λ y. y.0) (ran undefined t e), q))
    by_outcome running t e =
        failed a there (rw e (ran running t e)) (λ q. cc (ap (λ y. y.0) (ran running t e), q))

  -- Every ready descriptor is served in one of the six ways of `Serviced`, whatever the callback
  -- does.
  pub service_cases :
      (fd : ℕ) (s : S) → Serviced fd s (service get invoke read_count write_count fd s)
  unfolding service
  service_cases fd s = elim (Option-cases (lookup fd (get s).actions)) [
    | inl none_there ↦ absent none_there (rw none_there)
    | inr (a, there) ↦ by_outcome fd s a there (invoke a.callback s).0 (invoke a.callback s).1 refl
  ]

  -- When the first callback of a round erases its own action, the round is undefined behaviour,
  -- whatever else is ready.
  pub poll_self_removal :
      (os : EpollOs) (fd : ℕ) (fds : List ℕ) (s : S) (a : Action H) (r : ResultType) (t : S)
      → os.wait ≡ some (fd ∷ fds)
      → lookup fd (get s).actions ≡ some a
      → invoke a.callback s ≡ (ok r, t)
      → GoesOn r
      → lookup fd (get t).actions ≡ none
      → poll get invoke read_count write_count os s ≡ (undefined, t)
  unfolding poll service after_callback busy_wait
  poll_self_removal os fd fds s a r t ready there e (inl goes) gone =
      rw (ready, there, e, goes, gone)
  poll_self_removal os fd fds s a r t ready there e (inr goes) gone =
      rw (ready, there, e, goes, gone)
