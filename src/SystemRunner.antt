-- ===== src/SystemRunner.antt =====
-- src/util/system_runner.{hh,cc}: another program is started, in this process or in a child.
pub mod Laws
use koho.Prelude.{
  ℕ, Bool, true, false, ◌||◌, ◌&&◌, not, String, Option, none, some, List, [], ◌∷◌, ◌++◌, map, ◌==◌,
  if◌then◌else◌, Outcome, ok, thrown, aborted, undefined, running, runtime_error, unix_error,
  throw_if, system_call, M, ◌>>=◌, ◌>>◌, ◌>>>◌,
}
use koho.ChildProcess
use koho.ChildProcess.{ChildProcess, Wait, throw_exception}
use koho.Util.{join}

-- execve(2) comes back only when it fails, with -1; then `none`.
pub data Exec : Type 0 where
  replaced : Exec
  came_back : Option ℕ → Exec

-- an argument with its null at the end
abbrev pub null_terminated : List ℕ → List ℕ
null_terminated x = x ++ 0 ∷ []

exec_result : String → List (List ℕ) → Exec → Outcome (List (List ℕ))
exec_result attempt argv replaced = ok argv
exec_result attempt argv (came_back answer) =
    system_call attempt answer >>= λ _. thrown (runtime_error "execve: failed")

-- The result stands for the program that has taken the process over, by its arguments.
unfoldable pub ezexec :
    (Bool → List (List ℕ) → Exec) → ℕ → ℕ → Bool → List (List ℕ) → Bool → Outcome (List (List ℕ))
unfolding exec_result
ezexec exec euid egid environ_set [] path_search = thrown (runtime_error "ezexec: empty command")
ezexec exec euid egid environ_set (x ∷ command) path_search = do
  throw_if ((euid == 0 || egid == 0) && environ_set)
      (runtime_error "BUG: root's environment not cleared")
  throw_if ((euid == 0 || egid == 0) && path_search)
      (runtime_error "BUG: root should not search PATH")
  let argv = map null_terminated (x ∷ command)
  exec_result (if path_search then "execvpe" else "execve") argv (exec path_search argv)

-- `while ( !terminated() ) wait();`, over the answers of each round
unfoldable pub wait_loop : List Wait → M ChildProcess (Unit {0})
unfolding ChildProcess.wait
wait_loop [] s = (if s.terminated then ok tt else running, s)
wait_loop (os ∷ rounds) s =
    let once = ChildProcess.wait os false s >>> λ _ t. wait_loop rounds t in
    if s.terminated then (ok tt, s) else once

-- The destructor runs when the body has ended, in whatever way; a child that has terminated needs no
-- more rounds.
abbrev pub with_destructor :
    List Wait → Outcome (Unit {0}) × ChildProcess → Outcome (Unit {0}) × ChildProcess
with_destructor ending (r, s) = ChildProcess.destroy ending s >>> λ _ t. (r, t)

unfoldable pub run_child : List Wait → List Wait → M ChildProcess (Unit {0})
unfolding wait_loop ChildProcess.destroy throw_exception
run_child rounds ending s = with_destructor ending (
    wait_loop rounds s >>> λ _ t.
    (if not (t.exit_status == 0) then throw_exception t else ok tt, t))

-- SIGHUP, the signal that a ChildProcess gets by default
abbrev pub sighup : ℕ
sighup = 1

unfoldable pub run : Option ℕ → List Wait → List Wait → List (List ℕ) → Outcome (Unit {0})
unfolding run_child join ChildProcess.construct
run clone rounds ending command = do
  name ← join command
  child ← ChildProcess.construct name sighup clone
  (run_child rounds ending child).0
