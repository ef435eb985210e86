-- ===== src/EventLoop/Laws.antt =====
-- What a SIGCHLD does.
use koho.Prelude.{
  ◌≢◌, sym, subst, ap, ◌∙◌, ℕ, none, some, inl, inr, ◌==◌, arith, Bool-cases, Option-cases, Outcome,
  thrown, runtime_text, unix_error, ◌≡◌, refl, true, false, Option, List, [], ◌∷◌, ◌++◌, All, ok,
}
use koho.ChildProcess
use koho.ChildProcess.{ChildProcess, Wait, sigchld, waitable, throw_exception}
use koho.ChildProcess.Laws.{wait_here, report, failure_text-report}
use koho.Epoller.{continue, exit, ResultType}
use koho.EventLoop.{search, verdict, handle_signal}

search_skips :
    (os : Wait) (raise : Option ℕ) (before after : List ChildProcess)
    → All (λ x. waitable os x ≡ ok false) before
    → search os raise (before ++ after)
      ≡ ((search os raise after).0, before ++ (search os raise after).1)
unfolding search
search_skips os raise [] after quiet = refl
search_skips os raise (x ∷ before) after quiet =
    rw (quiet.0, search_skips os raise before after quiet.1)

search_none :
    (os : Wait) (raise : Option ℕ) (children : List ChildProcess)
    → All (λ x. waitable os x ≡ ok false) children
    → search os raise children ≡ (ok continue, children)
unfolding search
search_none os raise [] quiet = refl
search_none os raise (x ∷ children) quiet = rw (quiet.0, search_none os raise children quiet.1)

-- A SIGCHLD for which no child is waitable changes nothing, and the loop goes on.
pub handle_signal_spurious :
    (os : Wait) (raise : Option ℕ) (children : List ChildProcess)
    → All (λ x. waitable os x ≡ ok false) children
    → handle_signal os raise sigchld children ≡ (ok continue, children)
unfolding handle_signal
handle_signal_spurious os raise children quiet = search_none os raise children quiet

-- How a child that has been waited for decides how the loop goes on: one that has ended without
-- success throws an exception that tells its name, whether a signal has ended it or it has exited, and
-- its status; one that has ended with success ends the loop with status 0; for one that has stopped the
-- program stops itself, by a signal that it raises; and one that runs lets the loop go on.
pub data Decides (raise : Option ℕ) (y : ChildProcess) : Outcome ResultType → Type 0 where
  failure :
      y.terminated ≡ true
      → y.exit_status ≢ 0
      → y.moved_away ≡ false
      → Decides raise y (thrown (runtime_text (report y.name y.died_on_signal y.exit_status)))
  success : y.terminated ≡ true → y.exit_status ≡ 0 → Decides raise y (ok (exit 0))
  stops :
      (n : ℕ)
      → y.terminated ≡ false
      → y.running ≡ false
      → raise ≡ some n
      → Decides raise y (ok continue)
  cannot_stop :
      y.terminated ≡ false
      → y.running ≡ false
      → raise ≡ none
      → Decides raise y (thrown (unix_error "raise"))
  runs : y.terminated ≡ false → y.running ≡ true → Decides raise y (ok continue)

verdict-Decides :
    (raise : Option ℕ) (y : ChildProcess) → y.moved_away ≡ false → Decides raise y (verdict raise y)
unfolding verdict throw_exception
verdict-Decides raise y here = elim (Bool-cases y.terminated) [
  | inl over ↦ elim (Bool-cases (y.exit_status == 0)) [
    | inl good ↦ decided (rw (over, good) refl) (success over (ground arith))
    | inr bad ↦
        decided
          (rw (over, bad, here) refl
            ∙ ap (λ text. thrown (runtime_text text)) (failure_text-report y))
          (failure over (ground arith) here)
  ]
  | inr alive ↦ elim (Bool-cases y.running) [
    | inl up ↦ decided (rw (alive, up) refl) (runs alive up)
    | inr down ↦ elim (Option-cases raise) [
      | inl failed ↦ decided (rw (alive, down, failed) refl) (cannot_stop alive down failed)
      | inr (n, raised) ↦ decided (rw (alive, down, raised) refl) (stops n alive down raised)
    ]
  ]
]
  where
    decided :
        {r : Outcome ResultType}
        → verdict raise y ≡ r
        → Decides raise y r
        → Decides raise y (verdict raise y)
    decided e d = subst (λ o. Decides raise y o) (sym e) d

-- On a SIGCHLD, when no child before `x` is waitable, `x` is, and the wait for it returns: no other
-- child is waited for, every other child is as it was, and the child that was waited for, by whether
-- it has ended, with which status, or has stopped, decides how the loop goes on, as `Decides` tells.
pub handle_signal_child :
    (os : Wait) (raise : Option ℕ) (before after : List ChildProcess) (x y : ChildProcess)
    → All (λ z. waitable os z ≡ ok false) before
    → waitable os x ≡ ok true
    → ChildProcess.wait os true x ≡ (ok tt, y)
    → let (r, children) = handle_signal os raise sigchld (before ++ x ∷ after) in
      (children ≡ before ++ y ∷ after) × Decides raise y r
unfolding handle_signal search
handle_signal_child os raise before after x y quiet ready waited =
    rw (search_skips os raise before (x ∷ after) quiet, ready, waited)
      (refl, verdict-Decides raise y (wait_here os true x y waited))
