-- ===== src/Privileges.antt =====
-- src/util/util.{hh,cc}, drop_privileges and TemporarilyUnprivileged: the user and group ids of the
-- process. The calls that read and set them are parameters, over a state that only they know.
pub mod Dropping
pub mod Restoring
use koho.Prelude.{
  ℕ, String, Bool, true, false, ◌||◌, not, Option, none, some, ◌==◌, if◌then◌else◌, Outcome, ok,
  thrown, aborted, undefined, running, system_call, M, ◌>>>◌, when, pure,
}

-- getuid(2), setreuid(2) and their like; `none` is the return value -1.
pub record Kernel (K : Type 0) : Type 0 where
  pub getuid : K → ℕ
  pub geteuid : K → ℕ
  pub getgid : K → ℕ
  pub getegid : K → ℕ
  pub setreuid : ℕ → ℕ → K → Option ℕ × K
  pub setregid : ℕ → ℕ → K → Option ℕ × K
  pub seteuid : ℕ → K → Option ℕ × K
  pub setegid : ℕ → K → Option ℕ × K

-- how `drop_privileges` ends when nothing is thrown
pub data Ending : Type 0 where
  returned : Ending
  exited : ℕ → Ending

-- EXIT_FAILURE
abbrev pub exit_failure : ℕ
exit_failure = 1

abbrev pub is_success : Option ℕ → Bool
is_success none = false
is_success (some n) = true

-- the object TemporarilyUnprivileged
pub record Unprivileged : Type 0 where
  pub orig_euid : ℕ
  pub orig_egid : ℕ

-- A destructor is noexcept: what it throws ends the program.
abbrev pub noexcept {ℓ} : {A : Type ℓ} → Outcome A → Outcome A
noexcept (ok a) = ok a
noexcept (thrown e) = aborted
noexcept aborted = aborted
noexcept undefined = undefined
noexcept running = running

module _ {K : Type 0} (kernel : Kernel K) where
  -- `SystemCall( "setregid", setregid( real_gid, real_gid ) )`, and its like
  abbrev pub checked : String → Option ℕ × K → Outcome (Unit {0}) × K
  checked attempt (answer, k) = (system_call attempt answer, k) >>> λ n t. (ok tt, t)

  -- `real != eff && ( set( eff ) != -1 || get() != real )`
  abbrev pub regained : ℕ → ℕ → (ℕ → K → Option ℕ × K) → (K → ℕ) → K → Bool × K
  regained real eff set get k =
      if real == eff
      then (false, k)
      else (let (answer, t) = set eff k in (is_success answer || not (get t == real), t))

  -- `if ( test ) _exit( EXIT_FAILURE )`, and what follows
  abbrev pub unless_exit : Bool × K → M K Ending → Outcome Ending × K
  unless_exit (true, k) next = (ok (exited exit_failure), k)
  unless_exit (false, k) next = next k

  change_group : ℕ → ℕ → M K (Unit {0})
  change_group real eff =
      when (not (real == eff)) (λ s. checked "setregid" (kernel.setregid real real s))

  change_user : ℕ → ℕ → M K (Unit {0})
  change_user real eff =
      when (not (real == eff)) (λ s. checked "setreuid" (kernel.setreuid real real s))

  verify : ℕ → ℕ → ℕ → ℕ → M K Ending
  verify real_gid eff_gid real_uid eff_uid k =
      unless_exit (regained real_gid eff_gid kernel.setegid kernel.getegid k)
        λ t. unless_exit (regained real_uid eff_uid kernel.seteuid kernel.geteuid t) (pure returned)

  unfoldable pub drop_privileges : M K Ending
  unfolding change_group change_user verify
  drop_privileges k = change_group (kernel.getgid k) (kernel.getegid k) k >>> λ _ k1.
      change_user (kernel.getuid k) (kernel.geteuid k) k1 >>> λ _ k2.
      verify (kernel.getgid k) (kernel.getegid k) (kernel.getuid k) (kernel.geteuid k) k2

  -- The constructor of TemporarilyUnprivileged; `assert_not_root` is empty.
  unfoldable pub construct : M K Unprivileged
  construct k = checked "setegid" (kernel.setegid (kernel.getgid k) k) >>> λ _ k1.
      checked "seteuid" (kernel.seteuid (kernel.getuid k1) k1) >>> λ _ k2.
      (ok (record { orig_euid = kernel.geteuid k; orig_egid = kernel.getegid k }), k2)

  unfoldable pub destroy : Unprivileged → M K (Unit {0})
  destroy s k =
      let (r, t) = checked "seteuid" (kernel.seteuid s.orig_euid k) >>> λ _ k1.
      checked "setegid" (kernel.setegid s.orig_egid k1) in
      (noexcept r, t)
