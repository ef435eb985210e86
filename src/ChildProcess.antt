-- ===== src/ChildProcess.antt =====
-- src/util/child_process.{hh,cc}: a child process as its parent sees it. waitid(2) and kill(2) are
-- parameters; the child's own side of the constructor is not modelled.
pub mod Laws
pub mod End
use koho.Prelude.{
  ℕ, zero, suc, Bool, true, false, ◌&&◌, not, Option, none, some, List, [], ◌∷◌, ◌++◌, ◌==◌,
  if◌then◌else◌, String, Outcome, ok, thrown, aborted, running, runtime_error, runtime_text,
  throw_if, assert, system_call, M, ◌>>=◌, ◌>>◌, ◌>>>◌, catching,
}
use koho.Text.{bytes, to_string}

-- SIGCONT, SIGCHLD
abbrev pub sigcont : ℕ
sigcont = 18

abbrev pub sigchld : ℕ
sigchld = 17

pub record ChildProcess : Type 0 where
  pub name : List ℕ
  pub pid : ℕ
  pub running : Bool
  pub terminated : Bool
  pub exit_status : ℕ
  pub died_on_signal : Bool
  pub graceful_termination_signal : ℕ
  pub moved_away : Bool

-- the codes of a siginfo_t for SIGCHLD
pub data Code : Type 0 where
  exited killed dumped stopped continued unexpected : Code

pub record Siginfo : Type 0 where
  pub si_pid : ℕ
  pub si_signo : ℕ
  pub si_code : Code
  pub si_status : ℕ

-- waitid(2) with WNOHANG or without it, and with WNOWAIT; kill(2) on a process. The answers of
-- successive calls are those of successive records.
pub record Wait : Type 0 where
  pub waitid : ℕ → Bool → Option Siginfo
  pub peek : ℕ → Option Siginfo
  pub kill : ℕ → ℕ → Option ℕ

-- the parent's side of the constructor, after clone(2) has given the child's id
unfoldable pub construct : List ℕ → ℕ → Option ℕ → Outcome ChildProcess
construct name termination_signal clone = system_call "clone" clone >>= λ pid. ok (record {
  name = name;
  pid = pid;
  running = true;
  terminated = false;
  exit_status = 0;
  died_on_signal = false;
  graceful_termination_signal = termination_signal;
  moved_away = false;
})

-- the new object, and what is left of the old one
unfoldable pub move : ChildProcess → Outcome (ChildProcess × ChildProcess)
move other = assert (not other.moved_away) >> ok (other, record other { moved_away = true })

unfoldable pub waitable : Wait → ChildProcess → Outcome Bool
waitable os s = do
  assert (not s.moved_away)
  assert (not s.terminated)
  info ← system_call "waitid" (os.peek s.pid)
  if info.si_pid == 0
      then ok false
      else if info.si_pid == s.pid
      then ok true
      else thrown
          (runtime_error "waitid: unexpected value in siginfo_t si_pid field (not 0 or pid)")

-- how the process has changed its state
unfoldable pub change : Siginfo → Code → M ChildProcess (Unit {0})
change info exited s = (ok tt, record s { terminated = true; exit_status = info.si_status })
change info killed s =
    (ok tt, record s { terminated = true; exit_status = info.si_status; died_on_signal = true })
change info dumped s =
    (ok tt, record s { terminated = true; exit_status = info.si_status; died_on_signal = true })
change info stopped s = (ok tt, record s { running = false })
change info continued s = (ok tt, record s { running = true })
change info unexpected s = (thrown (runtime_error "waitid: unexpected siginfo_t si_code"), s)

unfoldable pub wait : Wait → Bool → M ChildProcess (Unit {0})
unfolding change
wait os nonblocking s =
    (
      do
        assert (not s.moved_away)
        assert (not s.terminated)
        info ← system_call "waitid" (os.waitid s.pid nonblocking)
        throw_if (nonblocking && info.si_pid == 0)
            (runtime_error "nonblocking wait: process was not waitable")
        throw_if (not (info.si_pid == s.pid))
            (runtime_error "waitid: unexpected value in siginfo_t si_pid field")
        throw_if (not (info.si_signo == sigchld))
            (runtime_error "waitid: unexpected value in siginfo_t si_signo field (not SIGCHLD)")
        ok info,
      s,
    )
    >>> λ info t. change info info.si_code t

unfoldable pub signal : Wait → ℕ → ChildProcess → Outcome (Unit {0})
signal os sig s = do
  assert (not s.moved_away)
  if s.terminated then ok tt else system_call "kill" (os.kill s.pid sig) >>= λ _. ok tt

unfoldable pub resume : Wait → ChildProcess → Outcome (Unit {0})
unfolding signal
resume os s = do assert (not s.moved_away); if s.running then ok tt else signal os sigcont s

abbrev pub failure_text : ChildProcess → List ℕ
failure_text s =
    bytes "`"
    ++ (s.name
        ++ (bytes "': process "
            ++ ((if s.died_on_signal
                  then bytes "died on signal "
                  else bytes "exited with failure status ")
                ++ to_string s.exit_status)))

unfoldable pub throw_exception : {A : Type 0} → ChildProcess → Outcome A
throw_exception s = do
  assert (not s.moved_away)
  assert s.terminated
  thrown (runtime_text (failure_text s))

-- `while ( !terminated_ )` of the destructor, over the answers of each round
unfoldable pub end_loop : List Wait → M ChildProcess (Unit {0})
unfolding resume wait
end_loop [] s = (if s.terminated then ok tt else Outcome.running, s)
end_loop (os ∷ rounds) s = elim s.terminated [
  | true ↦ (ok tt, s)
  | false ↦
      ((resume os s >> signal os s.graceful_termination_signal s, s) >>> λ _ t. wait os false t)
      >>> λ _ t. end_loop rounds t
]

unfoldable pub destroy : List Wait → M ChildProcess (Unit {0})
unfolding end_loop
destroy rounds s =
    if s.moved_away then (ok tt, s) else catching (end_loop rounds s) (λ _ t. (ok tt, t))
