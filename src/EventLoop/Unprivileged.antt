-- ===== src/EventLoop/Unprivileged.antt =====
-- How the event loop goes back to the privileges of its caller, and what it checks first.
use koho.Prelude.{Outcome, ok, thrown, aborted, undefined, running}
use koho.Privileges
use koho.FileDescriptor.{FileDescriptor}
use koho.EventLoop.Running.{EventLoop}

-- whether a part of the program has returned or thrown
abbrev pub IsOver : {A : Type 0} → Outcome A → Type 0
IsOver (ok a) = Unit {0}
IsOver (thrown e) = Unit {0}
IsOver aborted = ⊥
IsOver undefined = ⊥
IsOver running = ⊥
