-- ===== src/SystemRunner/Laws.antt =====
-- What `run` returns, and what `ezexec` refuses.
use koho.Prelude.{
  ap, sym, subst, ℕ, ◌≡◌, refl, ◌∙◌, ◌≢◌, ◌⊎◌, inl, inr, Bool, true, false, ◌==◌, some, List, [],
  ◌∷◌, ◌++◌, All, arith, ok, thrown, runtime_text, Bool-cases,
}
use koho.Util.{join}
use koho.Util.Laws.{spaced, join_lem}
use koho.ChildProcess
use koho.ChildProcess.{
  Code, ChildProcess, exited, killed, dumped, stopped, continued, Siginfo, Wait, change, wait,
  throw_exception,
}
use koho.ChildProcess.End
use koho.ChildProcess.End.{destroy_run}
use koho.ChildProcess.Laws.{IsAbout, wait_about, report, failure_text-report}
use koho.SystemRunner.{sighup, wait_loop, run_child, run}

-- A wait that finds the child stopped or going on.
pub record FindsPaused (pid : ℕ) (os : Wait) : Type 0 where
  pub info : Siginfo
  pub answer : os.waitid pid false ≡ some info
  pub about : IsAbout pid info
  pub pause : (info.si_code ≡ stopped) ⊎ (info.si_code ≡ continued)

-- whether a signal has ended a process
abbrev pub Death : Bool → Code → Type 0
Death true code = (code ≡ killed) ⊎ (code ≡ dumped)
Death false code = code ≡ exited

-- A wait that finds it dead, with its status: that of its exit, or the signal that killed it.
pub record FindsDead (pid status : ℕ) (by_signal : Bool) (os : Wait) : Type 0 where
  pub info : Siginfo
  pub answer : os.waitid pid false ≡ some info
  pub about : IsAbout pid info
  pub death : Death by_signal info.si_code
  pub its_status : info.si_status ≡ status

-- the child is here, alive, and that process
abbrev Alive : ℕ → ChildProcess → Type 0
Alive pid s =
    (s.moved_away ≡ false) × (s.terminated ≡ false) × (s.pid ≡ pid) × (s.died_on_signal ≡ false)

abbrev Dead : List ℕ → ℕ → Bool → ChildProcess → Type 0
Dead name status by_signal t =
    (t.moved_away ≡ false)
    × (t.terminated ≡ true)
    × (t.exit_status ≡ status)
    × (t.name ≡ name)
    × (t.died_on_signal ≡ by_signal)

stays :
    (rounds : List Wait) (t : ChildProcess) → t.terminated ≡ true → wait_loop rounds t ≡ (ok tt, t)
unfolding wait_loop
stays [] t over = rw over
stays (os ∷ rounds) t over = rw over

paused_lem :
    (os : Wait) (rounds : List Wait) (s : ChildProcess) (pid : ℕ)
    → Alive pid s
    → FindsPaused pid os
    → (b : Bool) × (wait_loop (os ∷ rounds) s ≡ wait_loop rounds (record s { running = b }))
unfolding wait_loop change
paused_lem os rounds s pid (here, live, same, _) h =
    let waited = wait_about os false s h.info here live (rw same h.answer) (rw same h.about) in
    elim h.pause [
      | inl stop ↦ (false, rw (waited, live, stop))
      | inr go ↦ (true, rw (waited, live, go))
    ]

dead_lem :
    (os : Wait) (rounds : List Wait) (s : ChildProcess) (pid status : ℕ) (by_signal : Bool)
    → Alive pid s
    → FindsDead pid status by_signal os
    → (t : ChildProcess) × (wait_loop (os ∷ rounds) s ≡ wait_loop rounds t)
      × Dead s.name status by_signal t
unfolding wait_loop change
dead_lem os rounds s pid status by_signal (here, live, same, unhit) h =
    by_death by_signal h.death
      (wait_about os false s h.info here live (rw same h.answer) (rw same h.about))
  where
    hit : ChildProcess
    hit = record s { terminated = true; exit_status = h.info.si_status; died_on_signal = true }

    by_death :
        (b : Bool)
        → Death b h.info.si_code
        → wait os false s ≡ change h.info h.info.si_code s
        → (t : ChildProcess) × (wait_loop (os ∷ rounds) s ≡ wait_loop rounds t)
          × Dead s.name status b t
    by_death false e waited = (
      record s { terminated = true; exit_status = h.info.si_status },
      rw (waited, live, e) refl,
      (here, refl, h.its_status, refl, unhit),
    )
    by_death true (inl e) waited =
        (hit, rw (waited, live, e) refl, (here, refl, h.its_status, refl, refl))
    by_death true (inr e) waited =
        (hit, rw (waited, live, e) refl, (here, refl, h.its_status, refl, refl))

wait_loop_lem :
    (front : List Wait) (os : Wait) (rest : List Wait) (s : ChildProcess) (pid status : ℕ)
    (by_signal : Bool)
    → Alive pid s
    → All (FindsPaused pid) front
    → FindsDead pid status by_signal os
    → (t : ChildProcess) × (wait_loop (front ++ os ∷ rest) s ≡ (ok tt, t))
      × Dead s.name status by_signal t
wait_loop_lem [] os rest s pid status by_signal alive pauses dies =
    let (t, step, dead) = dead_lem os rest s pid status by_signal alive dies in
    (t, step ∙ stays rest t dead.1, dead)
wait_loop_lem (o ∷ front) os rest s pid status by_signal alive pauses dies =
    let (b, step) = paused_lem o (front ++ os ∷ rest) s pid alive pauses.0 in
    let (t, run, dead) =
      wait_loop_lem front os rest (record s { running = b }) pid status by_signal alive pauses.1
        dies in
    (t, step ∙ run, dead)

destroy_dead :
    (ending : List Wait) (t : ChildProcess)
    → t.moved_away ≡ false
    → t.terminated ≡ true
    → ChildProcess.destroy ending t ≡ (ok tt, t)
destroy_dead ending t here over = destroy_run ending t t here (End.stays ending t over)

run_child_lem :
    (rounds ending : List Wait) (s t : ChildProcess) (status : ℕ) (by_signal : Bool)
    → wait_loop rounds s ≡ (ok tt, t)
    → Dead s.name status by_signal t
    → let r = (run_child rounds ending s).0 in
      ((status ≡ 0) × (r ≡ ok tt))
      ⊎ ((status ≢ 0) × (r ≡ thrown (runtime_text (report s.name by_signal status))))
unfolding run_child throw_exception
run_child_lem rounds ending s t status by_signal waited dead =
    let (here, over, its, called, hit) = dead in
    let gone = destroy_dead ending t here over in
    elim (Bool-cases (status == 0)) [
      | inl good ↦ inl (ground arith, rw (waited, gone, its, good) refl)
      | inr bad ↦ inr (
        ground arith,
        rw (waited, gone, its, bad, here, over) refl
            ∙ ap (λ text. thrown (runtime_text text))
                (failure_text-report t
                  ∙ ap (λ n. report n t.died_on_signal t.exit_status) called
                  ∙ ap (λ b. report s.name b t.exit_status) hit
                  ∙ ap (report s.name by_signal) its),
      )
    ]

abbrev started : List ℕ → ℕ → ChildProcess
started name pid = record {
  name = name;
  pid = pid;
  running = true;
  terminated = false;
  exit_status = 0;
  died_on_signal = false;
  graceful_termination_signal = sighup;
  moved_away = false;
}

run_started :
    (pid : ℕ) (rounds ending : List Wait) (command : List (List ℕ)) (name : List ℕ)
    → join command ≡ ok name
    → run (some pid) rounds ending command ≡ (run_child rounds ending (started name pid)).0
unfolding run ChildProcess.construct
run_started pid rounds ending command name e = rw e refl

-- A command that has a word, whose process can be made: whatever number of waits find it stopped or
-- going on before one finds it dead, `run` ends with that one. It returns if the status is 0, and
-- otherwise throws an exception that tells the words of the command with spaces between them, whether
-- a signal has ended it or it has exited, and its status.
pub run_lem :
    (word : List ℕ) (command : List (List ℕ)) (pid status : ℕ) (by_signal : Bool)
    (front : List Wait) (os : Wait) (rest ending : List Wait)
    → All (FindsPaused pid) front
    → FindsDead pid status by_signal os
    → let r = run (some pid) (front ++ os ∷ rest) ending (word ∷ command) in
      ((status ≡ 0) × (r ≡ ok tt))
      ⊎ ((status ≢ 0)
          × (r ≡ thrown (runtime_text (report (word ++ spaced command) by_signal status))))
run_lem word command pid status by_signal front os rest ending pauses dies =
    let name = word ++ spaced command in
    let s = started name pid in
    let (t, waited, dead) =
      wait_loop_lem front os rest s pid status by_signal (refl, refl, refl, refl) pauses dies in
    subst
      (λ r.
        ((status ≡ 0) × (r ≡ ok tt))
        ⊎ ((status ≢ 0) × (r ≡ thrown (runtime_text (report name by_signal status)))))
      (sym
        (run_started pid (front ++ os ∷ rest) ending (word ∷ command) name (join_lem word command)))
      (run_child_lem (front ++ os ∷ rest) ending s t status by_signal waited dead)
