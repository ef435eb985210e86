-- ===== src/ChildProcess/End.antt =====
-- How the destructor ends its child.
use koho.Prelude.{
  none, thrown, unix_error, Option-cases, ℕ, ◌≡◌, refl, ◌∙◌, ◌⊎◌, inl, inr, Bool, true, false, some,
  List, [], ◌∷◌, ◌++◌, All, ok, ◌>>>◌, Bool-cases,
}
use koho.ChildProcess.{
  ChildProcess, exited, killed, dumped, stopped, continued, Siginfo, Wait, sigcont, change, wait,
  resume, signal, end_loop, destroy,
}
use koho.ChildProcess.Laws.{IsAbout, wait_about}

-- A round of the destructor in which the child stops or goes on.
pub record Pauses (pid : ℕ) (os : Wait) : Type 0 where
  pub info : Siginfo
  pub answer : os.waitid pid false ≡ some info
  pub about : IsAbout pid info
  pub pause : (info.si_code ≡ stopped) ⊎ (info.si_code ≡ continued)
  pub killable : (sig : ℕ) → (n : ℕ) × (os.kill pid sig ≡ some n)

-- whether the child runs after such a round
abbrev pub goes_on : {pid : ℕ} {os : Wait} → Pauses pid os → Bool
goes_on h = elim h.pause [ inl stop ↦ false | inr go ↦ true ]

-- A round in which it terminates.
pub record Dies (pid : ℕ) (os : Wait) : Type 0 where
  pub info : Siginfo
  pub answer : os.waitid pid false ≡ some info
  pub about : IsAbout pid info
  pub death : (info.si_code ≡ exited) ⊎ ((info.si_code ≡ killed) ⊎ (info.si_code ≡ dumped))
  pub killable : (sig : ℕ) → (n : ℕ) × (os.kill pid sig ≡ some n)

-- Both signals of a round can be sent.
round_lem :
    (os : Wait) (rounds : List Wait) (s : ChildProcess)
    → s.moved_away ≡ false
    → s.terminated ≡ false
    → ((sig : ℕ) → (n : ℕ) × (os.kill s.pid sig ≡ some n))
    → end_loop (os ∷ rounds) s ≡ (wait os false s >>> λ _ t. end_loop rounds t)
unfolding end_loop resume signal
round_lem os rounds s here live killable = elim (Bool-cases s.running) [
  | inl up ↦ rw (live, here, up, (killable s.graceful_termination_signal).1)
  | inr down ↦
      rw (live, here, down, (killable sigcont).1, (killable s.graceful_termination_signal).1)
]

pause_lem :
    (os : Wait) (rounds : List Wait) (s : ChildProcess)
    → s.moved_away ≡ false
    → s.terminated ≡ false
    → (h : Pauses s.pid os)
    → end_loop (os ∷ rounds) s ≡ end_loop rounds (record s { running = goes_on h })
unfolding change
pause_lem os rounds s here live h =
    paused h.pause (wait_about os false s h.info here live h.answer h.about)
  where
    paused :
        (p : (h.info.si_code ≡ stopped) ⊎ (h.info.si_code ≡ continued))
        → wait os false s ≡ change h.info h.info.si_code s
        → end_loop (os ∷ rounds) s
          ≡ end_loop rounds
              (record s { running = elim p as (λ _. Bool) [ inl stop ↦ false | inr go ↦ true ] })
    paused (inl stop) waited = rw (round_lem os rounds s here live h.killable, waited, stop)
    paused (inr go) waited = rw (round_lem os rounds s here live h.killable, waited, go)

-- a child that has terminated with a status, and is otherwise the same
abbrev pub HasEnded : ℕ → ChildProcess → ChildProcess → Type 0
HasEnded status s t =
    (t.terminated ≡ true) × (t.exit_status ≡ status) × (t.pid ≡ s.pid) × (t.name ≡ s.name)

death_lem :
    (os : Wait) (rounds : List Wait) (s : ChildProcess)
    → s.moved_away ≡ false
    → s.terminated ≡ false
    → (h : Dies s.pid os)
    → (t : ChildProcess) × (end_loop (os ∷ rounds) s ≡ end_loop rounds t)
      × HasEnded h.info.si_status s t
unfolding change
death_lem os rounds s here live h =
    let waited = wait_about os false s h.info here live h.answer h.about in
    let hit : ChildProcess = record s {
      terminated = true;
      exit_status = h.info.si_status;
      died_on_signal = true;
    } in
    elim h.death [
      | inl e ↦ (
        record s { terminated = true; exit_status = h.info.si_status },
        rw (round_lem os rounds s here live h.killable, waited, e),
        (refl, refl, refl, refl),
      )
      | inr (inl e) ↦ (
        hit,
        rw (round_lem os rounds s here live h.killable, waited, e),
        (refl, refl, refl, refl),
      )
      | inr (inr e) ↦ (
        hit,
        rw (round_lem os rounds s here live h.killable, waited, e),
        (refl, refl, refl, refl),
      )
    ]

pub stays :
    (rounds : List Wait) (t : ChildProcess) → t.terminated ≡ true → end_loop rounds t ≡ (ok tt, t)
unfolding end_loop
stays [] t over = rw over
stays (os ∷ rounds) t over = rw over

pub destroy_run :
    (rounds : List Wait) (s t : ChildProcess)
    → s.moved_away ≡ false
    → end_loop rounds s ≡ (ok tt, t)
    → destroy rounds s ≡ (ok tt, t)
unfolding destroy
destroy_run rounds s t here run = rw (run, here)

-- whether the child runs after rounds in which it only stops or goes on
abbrev pub runs_after : (pid : ℕ) (rounds : List Wait) → All (Pauses pid) rounds → Bool → Bool
runs_after pid [] pauses up = up
runs_after pid (os ∷ rounds) pauses up = runs_after pid rounds pauses.1 (goes_on pauses.0)

-- The round that is the last of the loop. The child terminates; or one of the signals cannot be sent:
-- SIGCONT, which only a child that has stopped gets, or the signal that the child is to end on.
pub data Last (pid sig : ℕ) (up : Bool) (os : Wait) : Type 0 where
  dies : Dies pid os → Last pid sig up os
  cannot_resume : up ≡ false → os.kill pid sigcont ≡ none → Last pid sig up os
  cannot_signal : os.kill pid sig ≡ none → Last pid sig up os

-- What the last round leaves: a child that has terminated, with the status that the kernel tells; or
-- one that the kernel has not been asked about any more.
abbrev pub Left :
    {pid sig : ℕ} {up : Bool} {os : Wait}
    → Last pid sig up os
    → ChildProcess
    → ChildProcess
    → Type 0
Left (dies h) s t = HasEnded h.info.si_status s t
Left {up = up} (cannot_resume down failed) s t = t ≡ record s { running = up }
Left {up = up} (cannot_signal failed) s t = t ≡ record s { running = up }

pauses_lem :
    (front rest : List Wait) (s : ChildProcess)
    → s.moved_away ≡ false
    → s.terminated ≡ false
    → (pauses : All (Pauses s.pid) front)
    → end_loop (front ++ rest) s
      ≡ end_loop rest (record s { running = runs_after s.pid front pauses s.running })
pauses_lem [] rest s here live pauses = refl
pauses_lem (os ∷ front) rest s here live pauses =
    pause_lem os (front ++ rest) s here live pauses.0
    ∙ pauses_lem front rest (record s { running = goes_on pauses.0 }) here live pauses.1

-- A signal that cannot be sent ends the loop, before the kernel is asked about the child.
no_signal :
    (os : Wait) (rest : List Wait) (s : ChildProcess)
    → s.moved_away ≡ false
    → s.terminated ≡ false
    → os.kill s.pid s.graceful_termination_signal ≡ none
    → end_loop (os ∷ rest) s ≡ (thrown (unix_error "kill"), s)
unfolding end_loop resume signal
no_signal os rest s here live failed = elim (Bool-cases s.running) [
  | inl up ↦ rw (live, here, up, failed)
  | inr down ↦ elim (Option-cases (os.kill s.pid sigcont)) [
    | inl failed_too ↦ rw (live, here, down, failed_too)
    | inr (n, resumed) ↦ rw (live, here, down, resumed, failed)
  ]
]

no_resume :
    (os : Wait) (rest : List Wait) (s : ChildProcess)
    → s.moved_away ≡ false
    → s.terminated ≡ false
    → s.running ≡ false
    → os.kill s.pid sigcont ≡ none
    → end_loop (os ∷ rest) s ≡ (thrown (unix_error "kill"), s)
unfolding end_loop resume signal
no_resume os rest s here live down failed = rw (live, here, down, failed)

destroy_threw :
    (rounds : List Wait) (s t : ChildProcess)
    → s.moved_away ≡ false
    → end_loop rounds s ≡ (thrown (unix_error "kill"), t)
    → destroy rounds s ≡ (ok tt, t)
unfolding destroy
destroy_threw rounds s t here run = rw (run, here)

-- The destructor of a child that is there and has not terminated, after any number of rounds in which
-- the child, signalled, only stops or goes on, and then one of three: in a round in which it exits or
-- is killed, the loop ends, and the child has terminated with that status; a child that has stopped and
-- cannot be sent SIGCONT, or one that cannot be sent its termination signal, ends the loop at once.
-- Whichever comes, the destructor returns without an exception.
pub destroy_terminates :
    (front : List Wait) (os : Wait) (rest : List Wait) (s : ChildProcess)
    → s.moved_away ≡ false
    → s.terminated ≡ false
    → (pauses : All (Pauses s.pid) front)
    → (last : Last s.pid s.graceful_termination_signal (runs_after s.pid front pauses s.running) os)
    → (t : ChildProcess) × (destroy (front ++ os ∷ rest) s ≡ (ok tt, t)) × Left last s t
destroy_terminates front os rest s here live pauses (dies h) =
    let u = record s { running = runs_after s.pid front pauses s.running } in
    let (t, step, ended) = death_lem os rest u here live h in
    (
      t,
      destroy_run (front ++ os ∷ rest) s t here
          (pauses_lem front (os ∷ rest) s here live pauses ∙ step ∙ stays rest t ended.0),
      ended,
    )
destroy_terminates front os rest s here live pauses (cannot_resume down failed) =
    let u = record s { running = runs_after s.pid front pauses s.running } in
    (
      u,
      destroy_threw (front ++ os ∷ rest) s u here (
          pauses_lem front (os ∷ rest) s here live pauses
          ∙ no_resume os rest u here live down failed),
      refl,
    )
destroy_terminates front os rest s here live pauses (cannot_signal failed) =
    let u = record s { running = runs_after s.pid front pauses s.running } in
    (
      u,
      destroy_threw (front ++ os ∷ rest) s u here
          (pauses_lem front (os ∷ rest) s here live pauses ∙ no_signal os rest u here live failed),
      refl,
    )
