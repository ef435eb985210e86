-- ===== src/Poller.antt =====
-- src/util/poller.{hh,cc}: descriptors that are polled in the order of their actions, each only while
-- its action is active and interested. A callback is a name: `invoke` runs it on the program's state,
-- which holds the poller itself, and `fd_of` and `interested` give its descriptor and its
-- `when_interested`.
pub mod Laws
pub mod Keeps
use koho.Prelude.{
  ℕ, zero, suc, Bool, true, false, ◌&&◌, ◌||◌, not, Option, none, some, List, [], ◌∷◌, ◌++◌, ◌==◌,
  if◌then◌else◌, length, get_elem?, Outcome, ok, thrown, aborted, undefined, runtime_error,
  out_of_range, throw_if, assert, system_call, M, ◌>>=◌, ◌>>◌, ◌>>>◌,
}
use koho.FileDescriptor.{FileDescriptor}
use koho.Epoller.{
  Direction, incoming, outgoing, ResultType, continue, cancel, exit, PollResult, poll_success,
  poll_timeout, poll_exit,
}

pub record Action (H : Type 0) : Type 0 where
  pub direction : Direction
  pub callback : H
  pub active : Bool

-- a pollfd; `events` is `none` for 0
pub record Pollfd : Type 0 where
  pub fd : ℕ
  pub events : Option Direction

-- the bits of `revents` that the code looks at: POLLERR, POLLHUP or POLLNVAL, POLLIN, POLLOUT
pub record Revents : Type 0 where
  pub error : Bool
  pub readable : Bool
  pub writable : Bool

pub record Poller (H : Type 0) : Type 0 where
  pub actions : List (Action H)
  pub pollfds : List Pollfd

-- poll(2): how many descriptors are ready, and the `revents` of each
abbrev pub PollOs : Type 0
PollOs = List Pollfd → Option (ℕ × List Revents)

unfoldable pub add_action : {H : Type 0} → ℕ → Action H → Poller H → Poller H
add_action fd a p = record {
  actions = p.actions ++ a ∷ [];
  pollfds = p.pollfds ++ (record { fd = fd; events = none }) ∷ [];
}

abbrev pub is_incoming : Direction → Bool
is_incoming incoming = true
is_incoming outgoing = false

-- `x.events` as a bool
abbrev pub is_polled : Option Direction → Bool
is_polled none = false
is_polled (some d) = true

unfoldable pub any_polled : List Pollfd → Bool
any_polled [] = false
any_polled (p ∷ ps) = is_polled p.events || any_polled ps

-- `revents & events`
abbrev pub happened : Option Direction → Revents → Bool
happened none r = false
happened (some incoming) r = r.readable
happened (some outgoing) r = r.writable

-- `actions_.at( i ).active = false`
unfoldable pub deactivate : {H : Type 0} → ℕ → List (Action H) → List (Action H)
deactivate i [] = []
deactivate zero (a ∷ l) = record a { active = false } ∷ l
deactivate (suc i) (a ∷ l) = a ∷ deactivate i l

module _ {S H : Type 0} (get : S → Poller H) (put : Poller H → S → S) (invoke : H → M S ResultType)
    (fd_of : H → S → FileDescriptor) (interested : H → S → Bool) where
  abbrev pub service_count : Action H → S → ℕ
  service_count a s =
      if is_incoming a.direction
      then (fd_of a.callback s).read_count
      else (fd_of a.callback s).write_count

  -- Descriptors at their end of file are not polled for input.
  unfoldable pub events_for : Action H → S → Option Direction
  events_for a s =
      if is_incoming a.direction && (fd_of a.callback s).eof
      then none
      else if a.active && interested a.callback s
      then some a.direction
      else none

  unfoldable pub prepare : List (Action H) → List Pollfd → S → Outcome (List Pollfd)
  unfolding events_for
  prepare [] [] s = ok []
  prepare [] (p ∷ ps) s = aborted
  prepare (a ∷ l) [] s = aborted
  prepare (a ∷ l) (p ∷ ps) s = do
    assert (p.fd == (fd_of a.callback s).fd)
    rest ← prepare l ps s
    ok (record p { events = events_for a s } ∷ rest)

  check_busy : ℕ → Option (Action H) → M S (Option PollResult)
  check_busy before none s = (thrown out_of_range, s)
  check_busy before (some a) s = (
    throw_if (before == service_count a s)
          (runtime_error "Poller: busy wait detected: callback did not read/write fd")
        >>= λ _. ok none,
    s,
  )

  after_callback : ℕ → ℕ → ResultType → M S (Option PollResult)
  unfolding check_busy
  after_callback i before (exit status) s = (ok (some (poll_exit status)), s)
  after_callback i before cancel s =
      let t = put (record (get s) { actions = deactivate i (get s).actions }) s in
      check_busy before (get_elem? (get t).actions i) t
  after_callback i before continue s = check_busy before (get_elem? (get s).actions i) s

  call : ℕ → Option (Action H) → M S (Option PollResult)
  unfolding after_callback
  call i none s = (thrown out_of_range, s)
  call i (some a) s = invoke a.callback s >>> after_callback i (service_count a s)

  -- the loop over the descriptors; a result ends it
  unfoldable pub serve : ℕ → List Pollfd → List Revents → M S PollResult
  unfolding call
  serve i [] rs s = (ok poll_success, s)
  serve i (p ∷ ps) [] s = (ok poll_success, s)
  serve i (p ∷ ps) (r ∷ rs) s =
      if r.error
      then (ok (poll_exit 0), s)
      else ((if happened p.events r then call i (get_elem? (get s).actions i) s else (ok none, s))
          >>> λ result t. elim result [ none ↦ serve (suc i) ps rs t | some x ↦ (ok x, t) ])

  ask : PollOs → List Pollfd → M S PollResult
  unfolding serve
  ask os ps s = (system_call "poll" (os ps), s) >>> λ answer t.
      if answer.0 == 0 then (ok poll_timeout, t) else serve 0 ps answer.1 t

  unfoldable pub poll : PollOs → M S PollResult
  unfolding prepare ask
  poll os s = (prepare (get s).actions (get s).pollfds s, s) >>> λ ps t.
      let u = put (record (get t) { pollfds = ps }) t in
      if any_polled ps then ask os ps u else (ok (poll_exit 0), u)
