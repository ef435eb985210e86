-- ===== src/Tests/Privileged.antt =====
-- A kernel with real, effective and saved ids, and what gives up its privileges.
use koho.Prelude.{
  List, [], ◌∷◌, M, ℕ, ◌≡◌, refl, inl, inr, Bool, true, false, ◌||◌, ◌&&◌, none, some, ◌==◌,
  if◌then◌else◌, arith, ok, Bool-cases,
}
use koho.Privileges
use koho.Privileges.{Kernel, returned, drop_privileges}
use koho.Privileges.Dropping.{IsDocumented, GroupDropped, UserDropped, drop_privileges_lem}
use koho.Privileges.Restoring.{IsLinux, destroy-construct, drop_privileges_returns}
use koho.FileDescriptor.{FileDescriptor}
use koho.Epoller.{ResultType, continue}
use koho.Signals.{Sigset}
use koho.EventLoop.Running.{EventLoop, LoopAnswers, Round}
use koho.Tests.World.{os_with, descriptor}

record Ids : Type 0 where
  real : ℕ
  effective : ℕ
  saved : ℕ

record Process : Type 0 where
  users : Ids
  groups : Ids

-- `privileged` is whether the process may set what it likes
abbrev set_both : Bool → ℕ → ℕ → Ids → Bool
set_both privileged r e ids =
    privileged
    || ((r == ids.real || r == ids.effective)
        && (e == ids.real || (e == ids.effective || e == ids.saved)))

abbrev set_effective : Bool → ℕ → Ids → Bool
set_effective privileged e ids = privileged || (e == ids.real || e == ids.saved)

abbrev is_root : Process → Bool
is_root k = k.users.effective == 0

abbrev kernel : Kernel Process
kernel = record {
  getuid = λ k. k.users.real;
  geteuid = λ k. k.users.effective;
  getgid = λ k. k.groups.real;
  getegid = λ k. k.groups.effective;
  setreuid = λ r e k.
      if set_both (is_root k) r e k.users
      then (some 0, record k { users = record { real = r; effective = e; saved = e } })
      else (none, k);
  setregid = λ r e k.
      if set_both (is_root k) r e k.groups
      then (some 0, record k { groups = record { real = r; effective = e; saved = e } })
      else (none, k);
  seteuid = λ e k.
      if set_effective (is_root k) e k.users
      then (some 0, record k { users = record k.users { effective = e } })
      else (none, k);
  setegid = λ e k.
      if set_effective (is_root k) e k.groups
      then (some 0, record k { groups = record k.groups { effective = e } })
      else (none, k);
}

kernel-IsDocumented : IsDocumented kernel
kernel-IsDocumented = record {
  setregid_sets = λ k g n h. elim (Bool-cases (set_both (is_root k) g g k.groups)) [
    | inl may ↦ rw may (refl, refl, (refl, refl))
    | inr not_allowed ↦ cc (rw not_allowed at h)
  ];
  setreuid_sets = λ k u n h. elim (Bool-cases (set_both (is_root k) u u k.users)) [
    | inl may ↦ rw may (refl, refl, (refl, refl))
    | inr not_allowed ↦ cc (rw not_allowed at h)
  ];
  setegid_fails = λ k g h. elim (Bool-cases (set_effective (is_root k) g k.groups)) [
    | inl may ↦ cc (rw may at h)
    | inr not_allowed ↦ rw not_allowed refl
  ];
  seteuid_fails = λ k u h. elim (Bool-cases (set_effective (is_root k) u k.users)) [
    | inl may ↦ cc (rw may at h)
    | inr not_allowed ↦ rw not_allowed refl
  ];
}

kernel-IsLinux : IsLinux kernel
kernel-IsLinux = record {
  saved_uid = λ k. k.users.saved;
  saved_gid = λ k. k.groups.saved;
  setegid_allowed = λ k g h.
      let may : set_effective (is_root k) g k.groups ≡ true = ground (arith, h) in
      rw may (refl, refl, refl, refl, refl, refl);
  seteuid_allowed = λ k u h.
      let may : set_effective (is_root k) u k.users ≡ true = ground (arith, h) in
      rw may (refl, refl, refl, refl, refl, refl);
  setregid_real = λ k.
      let may : set_both (is_root k) k.groups.real k.groups.real k.groups ≡ true = ground arith in
      rw may (refl, refl, refl, refl, refl, refl);
  setreuid_real = λ k.
      let may : set_both (is_root k) k.users.real k.users.real k.users ≡ true = ground arith in
      rw may (refl, refl, refl, refl, refl, refl, refl);
  setegid_refused = λ k g user d s.
      let not_allowed : set_effective (is_root k) g k.groups ≡ false = ground (arith, user, d, s) in
      rw not_allowed refl;
  seteuid_refused = λ k u user d s.
      let not_allowed : set_effective (is_root k) u k.users ≡ false = ground (arith, user, d, s) in
      rw not_allowed refl;
}

-- a program that user 1000 has started, and that is installed setuid and setgid for root
abbrev setuid_root : Process
setuid_root = record {
  users = record { real = 1000; effective = 0; saved = 0 };
  groups = record { real = 100; effective = 0; saved = 0 };
}

abbrev ordinary : Process
ordinary = record {
  users = record { real = 1000; effective = 1000; saved = 1000 };
  groups = record { real = 100; effective = 100; saved = 100 };
}

drop_privileges_lem_example :
    GroupDropped kernel setuid_root ordinary × UserDropped kernel setuid_root ordinary
unfolding drop_privileges
drop_privileges_lem_example =
    drop_privileges_lem kernel kernel-IsDocumented setuid_root {t = ordinary} refl

dropping_returns : (drop_privileges kernel setuid_root).0 ≡ ok returned
dropping_returns = drop_privileges_returns kernel kernel-IsLinux setuid_root (λ e. omega (arith, e))

destroy-construct_example :
    (s : Privileges.Unprivileged) × (t : Process) × (u : Process) × (Privileges.construct kernel
        setuid_root
      ≡ (ok s, t))
    × (t.users.effective ≡ 1000)
    × (t.groups.effective ≡ 100)
    × (Privileges.destroy kernel s t ≡ (ok tt, u))
    × (u.users.effective ≡ 0)
    × (u.groups.effective ≡ 0)
unfolding kernel-IsLinux
destroy-construct_example = destroy-construct kernel kernel-IsLinux setuid_root refl refl

abbrev signals : Sigset (List ℕ)
signals = record {
  sigemptyset = some [];
  sigaddset = λ mask signal. some (signal ∷ mask);
  sigismember = λ mask n. some 0;
}

-- the one round of a loop, in which there is an error on the descriptor of its signals
abbrev broken : Round
broken = record {
  polling = λ ps. some (1, (record { error = true; readable = false; writable = false }) ∷ []);
  os = os_with [];
  wait = record { waitid = λ pid nonblocking. none; peek = λ pid. none; kill = λ pid sig. none };
  raise = none;
}

abbrev answers : Process → LoopAnswers (List ℕ)
answers t = record {
  blocked = some [];
  signalfd = some 5;
  fcntl = λ fd. some 0;
  rounds = broken ∷ [];
}

abbrev state : EventLoop (List ℕ) (Unit {0}) × Unit {0}
state = (
  record { signals = []; poller = record { actions = []; pollfds = [] }; child_processes = [] },
  tt,
)

abbrev quiet : Unit {0} → M (Unit {0}) ResultType
quiet _ s = (ok continue, s)

abbrev input : Unit {0} → Unit {0} → FileDescriptor
input _ s = descriptor 7
