-- ===== src/Epoller.antt =====
-- src/util/epoller.{hh,cc}: descriptors that wait for an event, each with its callback. A callback is a
-- name that `invoke` runs on the program's state, which holds the epoller itself; an action's
-- reference to its descriptor is the name's, too.
pub mod Keeps
pub mod Laws
use koho.Prelude.{
  ℕ, Bool, true, false, not, Option, none, some, List, [], ◌∷◌, ◌==◌, if◌then◌else◌, lookup, insert,
  erase, has_key, Outcome, ok, thrown, undefined, assert, throw_from, system_call, M, ◌>>=◌, ◌>>◌,
  ◌>>>◌,
}

pub data Direction : Type 0 where
  incoming outgoing : Direction

-- `Action::Result`, the type with its exit status
pub data ResultType : Type 0 where
  continue cancel : ResultType
  exit : ℕ → ResultType

-- `Epoller::Result`
pub data PollResult : Type 0 where
  poll_success poll_timeout : PollResult
  poll_exit : ℕ → PollResult

pub record Action (H : Type 0) : Type 0 where
  pub direction : Direction
  pub callback : H

pub record Epoller (H : Type 0) : Type 0 where
  pub epoll_fd : ℕ
  pub actions : List (ℕ × Action H)

-- What epoll_ctl(2) and epoll_wait(2) answer: the wait gives the ready descriptors, in order, at most
-- 1000 of them.
pub record EpollOs : Type 0 where
  pub ctl_add : ℕ → Option ℕ
  pub ctl_del : ℕ → Option ℕ
  pub wait : Option (List ℕ)

module _ {H : Type 0} where
  unfoldable pub construct : Option ℕ → Outcome (Epoller H)
  construct epoll_create =
      system_call "epoll_create" epoll_create >>= λ fd. ok (record { epoll_fd = fd; actions = [] })

  -- The action is in the map before the kernel is asked.
  unfoldable pub add_action : EpollOs → ℕ → Action H → M (Epoller H) ℕ
  add_action os fd action s = (assert (not (has_key fd s.actions)), s) >>> λ _ _. (
    system_call "epoll_ctl add" (os.ctl_add fd),
    record s { actions = insert fd action s.actions },
  )

  unfoldable pub remove_action : EpollOs → ℕ → M (Epoller H) (Unit {0})
  remove_action os fd s = (system_call "epoll_ctl del" (os.ctl_del fd), s) >>> λ _ _.
      (ok tt, record s { actions = erase fd s.actions })

module _ {S H : Type 0} (get : S → Epoller H) (invoke : H → M S ResultType)
    (read_count write_count : H → S → ℕ) where
  abbrev pub service_count : Action H → S → ℕ
  service_count a s = by_direction a.direction
    where
      by_direction : Direction → ℕ
      by_direction incoming = read_count a.callback s
      by_direction outgoing = write_count a.callback s

  -- After the callback: `action_it` still points at the action only if it is still in the map.
  busy_wait : ℕ → ℕ → Option (Action H) → M S (Option PollResult)
  busy_wait fd before none s = (undefined, s)
  busy_wait fd before (some a) s = (
    if service_count a s == before
        then throw_from fd "Epoller: busy wait detected: callback did not read/write fd "
        else ok none,
    s,
  )

  after_callback : ℕ → ℕ → ResultType → M S (Option PollResult)
  unfolding busy_wait
  after_callback fd before (exit status) s = (ok (some (poll_exit status)), s)
  after_callback fd before continue s = busy_wait fd before (lookup fd (get s).actions) s
  after_callback fd before cancel s = busy_wait fd before (lookup fd (get s).actions) s

  service_action : ℕ → Option (Action H) → M S (Option PollResult)
  unfolding after_callback
  service_action fd none s = (ok none, s)
  service_action fd (some a) s = invoke a.callback s >>> after_callback fd (service_count a s)

  -- one round of the loop over the events; a result ends the loop
  unfoldable pub service : ℕ → M S (Option PollResult)
  unfolding service_action
  service fd s = service_action fd (lookup fd (get s).actions) s

  unfoldable pub poll_events : List ℕ → M S PollResult
  poll_events [] s = (ok poll_success, s)
  poll_events (fd ∷ fds) s =
      service fd s >>> λ result t. elim result [ none ↦ poll_events fds t | some r ↦ (ok r, t) ]

  -- The timeout is the kernel's affair.
  unfoldable pub poll : EpollOs → M S PollResult
  unfolding poll_events
  poll os s = (system_call "epoll_wait" os.wait, s) >>> λ events t. poll_events events t
