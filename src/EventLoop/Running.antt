-- ===== src/EventLoop/Running.antt =====
-- The event loop itself: its constructor, its handlers, and the loop over its poller. The handlers of
-- the program work on a state of their own.
use koho.Prelude.{
  ℕ, Bool, true, not, Option, List, [], ◌∷◌, ◌++◌, Outcome, ok, thrown, aborted, undefined, running,
  runtime_error, throw_if, M, ◌>>=◌, ◌>>◌, ◌>>>◌,
}
use koho.FileDescriptor.{FileDescriptor, Os}
use koho.Privileges
use koho.Privileges.{Kernel}
use koho.Signals
use koho.Signals.{Sigset, mask_eq, current_mask, set_as_mask, signal_fd, read_signal, ssi_signo}
use koho.ChildProcess.{ChildProcess, Wait}
use koho.Epoller.{incoming, ResultType, PollResult, poll_success, poll_timeout, poll_exit}
use koho.Poller.{Poller, PollOs, add_action, poll}
use koho.EventLoop.{handle_signal}

-- the handler of the signals, and those of the program
pub data Handler (H : Type 0) : Type 0 where
  on_signal : Handler H
  on_input : H → Handler H

pub record EventLoop (G H : Type 0) : Type 0 where
  pub signals : G
  pub poller : Poller (Handler H)
  pub child_processes : List ChildProcess

-- SIGCHLD, SIGCONT, SIGHUP, SIGTERM, SIGQUIT and SIGINT
abbrev pub handled_signals : List ℕ
handled_signals = 17 ∷ 18 ∷ 1 ∷ 15 ∷ 3 ∷ 2 ∷ []

module _ {G H : Type 0} where
  -- The signals are blocked, so that they can be read.
  unfoldable pub construct : Sigset G → (G → Option ℕ) → Outcome (EventLoop G H)
  unfolding Signals.construct set_as_mask
  construct sigset sigprocmask = do
    signals ← Signals.construct sigset handled_signals
    set_as_mask sigprocmask signals
    ok (record {
      signals = signals;
      poller = record { actions = []; pollfds = [] };
      child_processes = [];
    })

  unfoldable pub add_simple_input_handler : ℕ → Handler H → EventLoop G H → EventLoop G H
  unfolding add_action
  add_simple_input_handler fd callback s = record s {
    poller =
        add_action fd (record { direction = incoming; callback = callback; active = true })
          s.poller;
  }

  unfoldable pub add_child_process : ChildProcess → EventLoop G H → EventLoop G H
  add_child_process child s = record s { child_processes = s.child_processes ++ child ∷ [] }

-- The kernel during one call of `poll`: its answer, its reads, and what the handler of signals asks.
pub record Round : Type 0 where
  pub polling : PollOs
  pub os : Os
  pub wait : Wait
  pub raise : Option ℕ

-- The loop while it runs: with the descriptor of its signals, and the state of the program.
pub record Running (G H C : Type 0) : Type 0 where
  pub event_loop : EventLoop G H
  pub signal_fd : FileDescriptor
  pub program : C

module _ {G H C : Type 0} (invoke_input : H → M C ResultType)
    (fd_of_input : H → C → FileDescriptor) where
  abbrev pub get : Running G H C → Poller (Handler H)
  get s = s.event_loop.poller

  abbrev pub put : Poller (Handler H) → Running G H C → Running G H C
  put p s = record s { event_loop = record s.event_loop { poller = p } }

  -- `handle_signal( signal_fd.read_signal() )`
  unfoldable pub signal_arrived : Round → M (Running G H C) ResultType
  unfolding read_signal handle_signal
  signal_arrived round s =
      let (r, fd) = read_signal round.os s.signal_fd in
      (r, record s { signal_fd = fd }) >>> λ info t.
      let (result, children) =
        handle_signal round.wait round.raise (ssi_signo info) t.event_loop.child_processes in
      (result, record t { event_loop = record t.event_loop { child_processes = children } })

  unfoldable pub invoke : Round → Handler H → M (Running G H C) ResultType
  unfolding signal_arrived
  invoke round on_signal s = signal_arrived round s
  invoke round (on_input h) s =
      let (r, program) = invoke_input h s.program in (r, record s { program = program })

  unfoldable pub fd_of : Handler H → Running G H C → FileDescriptor
  fd_of on_signal s = s.signal_fd
  fd_of (on_input h) s = fd_of_input h s.program

  -- A simple input handler is interested always.
  abbrev pub interested : Handler H → Running G H C → Bool
  interested h s = true

  unfoldable pub poll_once : Round → M (Running G H C) PollResult
  unfolding invoke fd_of poll
  poll_once round = poll get put (invoke round) fd_of interested round.polling

  abbrev pub or_status : PollResult → M (Running G H C) ℕ → M (Running G H C) ℕ
  or_status poll_success next s = next s
  or_status poll_timeout next s = next s
  or_status (poll_exit status) next s = (ok status, s)

  unfoldable pub poll_loop : List Round → M (Running G H C) ℕ
  unfolding poll_once
  poll_loop [] s = (running, s)
  poll_loop (round ∷ rounds) s = poll_once round s >>> λ r t. or_status r (poll_loop rounds) t

  -- the part of `internal_loop` that runs without privileges
  unfoldable pub unprivileged_part :
      Sigset G → Option G → Option ℕ → (ℕ → Option ℕ) → List Round → EventLoop G H × C → Outcome ℕ
  unfolding mask_eq current_mask signal_fd add_simple_input_handler poll_loop
  unprivileged_part sigset blocked signalfd fcntl rounds (s, program) = do
    current ← current_mask blocked
    throw_if (not (mask_eq sigset s.signals current))
        (runtime_error "EventLoop: signal mask has been altered")
    fd ← signal_fd signalfd fcntl
    (poll_loop rounds (record {
      event_loop = add_simple_input_handler fd.fd on_signal s;
      signal_fd = fd;
      program = program;
    })).0

-- The destructor of TemporarilyUnprivileged runs when the rest has returned or thrown.
abbrev pub finally : {A K : Type 0} → Outcome A → (K → Outcome (Unit {0}) × K) → M K A
finally (ok a) last k = last k >>> λ _ t. (ok a, t)
finally (thrown e) last k = last k >>> λ _ t. (thrown e, t)
finally aborted last k = (aborted, k)
finally undefined last k = (undefined, k)
finally running last k = (running, k)

-- What the event loop asks of the kernel before its first round, and in each.
pub record LoopAnswers (G : Type 0) : Type 0 where
  pub blocked : Option G
  pub signalfd : Option ℕ
  pub fcntl : ℕ → Option ℕ
  pub rounds : List Round

-- What the kernel answers to the loop depends on the process, with the ids that it has then.
module _ {G H C K : Type 0} (kernel : Kernel K) (invoke_input : H → M C ResultType)
    (fd_of_input : H → C → FileDescriptor) (sigset : Sigset G) (answers : K → LoopAnswers G) where
  -- the loop in a process, on an event loop and the state of the program
  abbrev pub loop_in : K → EventLoop G H × C → Outcome ℕ
  loop_in k state =
      unprivileged_part invoke_input fd_of_input sigset (answers k).blocked (answers k).signalfd
        (answers k).fcntl (answers k).rounds state

  unfoldable pub internal_loop : EventLoop G H × C → M K ℕ
  unfolding Privileges.construct Privileges.destroy unprivileged_part
  internal_loop state k = Privileges.construct kernel k >>> λ tu t.
      finally (loop_in t state) (Privileges.destroy kernel tu) t
