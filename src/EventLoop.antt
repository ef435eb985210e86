-- ===== src/EventLoop.antt =====
-- src/util/event_loop.{hh,cc}: the handler of signals, over the child processes of the loop. The loop
-- itself is in EventLoop/Running.antt.
pub mod Laws
pub mod Running
pub mod Unprivileged
use koho.Prelude.{
  ℕ, Bool, true, false, ◌||◌, not, Option, List, [], ◌∷◌, ◌==◌, if◌then◌else◌, Outcome, ok, thrown,
  aborted, undefined, running, runtime_error, system_call, M, ◌>>=◌, ◌>>◌, ◌>>>◌,
}
use koho.ChildProcess
use koho.ChildProcess.{ChildProcess, Wait, sigchld, sigcont, waitable, throw_exception, resume}
use koho.Epoller.{ResultType, continue, exit}

-- SIGHUP, SIGTERM, SIGQUIT and SIGINT
abbrev pub is_deadly : ℕ → Bool
is_deadly sig = sig == 1 || (sig == 15 || (sig == 3 || sig == 2))

-- `for ( auto & x : child_processes_ ) { x.resume(); }`; a resume changes no object
resume_all : Wait → List ChildProcess → Outcome (Unit {0})
resume_all os [] = ok tt
resume_all os (x ∷ xs) = resume os x >> resume_all os xs

-- what a child that has been waited for means to its parent
unfoldable pub verdict : Option ℕ → ChildProcess → Outcome ResultType
verdict raise x =
    if x.terminated
    then (if not (x.exit_status == 0) then throw_exception x else ok (exit 0))
    else if not x.running
    then (system_call "raise" raise >>= λ _. ok continue)
    else ok continue

reap : Wait → Option ℕ → ChildProcess → List ChildProcess → Outcome ResultType × List ChildProcess
unfolding verdict
reap os raise x xs =
    let (r, y) = ChildProcess.wait os true x in (r >>= λ _. verdict raise y, y ∷ xs)

-- one round of the loop over the children; `rest` is what the other rounds make of the others
round :
    Wait
    → Option ℕ
    → ChildProcess
    → List ChildProcess
    → Outcome ResultType × List ChildProcess
    → Outcome Bool
    → Outcome ResultType × List ChildProcess
unfolding reap
round os raise x xs rest (ok true) = reap os raise x xs
round os raise x xs rest (ok false) = (rest.0, x ∷ rest.1)
round os raise x xs rest (thrown e) = (thrown e, x ∷ xs)
round os raise x xs rest aborted = (aborted, x ∷ xs)
round os raise x xs rest undefined = (undefined, x ∷ xs)
round os raise x xs rest running = (running, x ∷ xs)

-- the loop over the children, which ends with the first that is waitable
unfoldable pub search : Wait → Option ℕ → M (List ChildProcess) ResultType
unfolding round
search os raise [] = (ok continue, [])
search os raise (x ∷ xs) = round os raise x xs (search os raise xs) (waitable os x)

unfoldable pub handle_signal : Wait → Option ℕ → ℕ → M (List ChildProcess) ResultType
unfolding search resume_all
handle_signal os raise sig s =
    if sig == sigcont
    then (resume_all os s >> ok continue, s)
    else if sig == sigchld
    then search os raise s
    else if is_deadly sig
    then (ok (exit 0), s)
    else (thrown (runtime_error "EventLoop: unknown signal"), s)
