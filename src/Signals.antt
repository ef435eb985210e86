-- ===== src/Signals.antt =====
-- src/util/signalfd.{hh,cc}: sets of signals, and the descriptor on which they are read. A sigset_t and
-- the calls on it are parameters.
pub mod Laws
use koho.Prelude.{
  ℕ, zero, suc, ◌+◌, ◌-◌, ◌*◌, Bool, true, false, not, Option, none, some, List, [], ◌∷◌, ltb, ◌==◌,
  if◌then◌else◌, length, take, drop, Outcome, ok, thrown, runtime_error, throw_if, system_call, M,
  ◌>>=◌, ◌>>◌, ◌>>>◌,
}
use koho.FileDescriptor
use koho.FileDescriptor.{FileDescriptor, Os, buffer_size}

-- SIGRTMAX
abbrev pub sigrtmax : ℕ
sigrtmax = 64

-- sigemptyset(3), sigaddset(3) and sigismember(3); `none` is the return value -1.
pub record Sigset (G : Type 0) : Type 0 where
  pub sigemptyset : Option G
  pub sigaddset : G → ℕ → Option G
  pub sigismember : G → ℕ → Option ℕ

abbrev pub same_answer : Option ℕ → Option ℕ → Bool
same_answer none none = true
same_answer none (some n) = false
same_answer (some m) none = false
same_answer (some m) (some n) = m == n

module _ {G : Type 0} (sigset : Sigset G) where
  add_all : List ℕ → G → Outcome G
  add_all [] mask = ok mask
  add_all (signal ∷ signals) mask =
      system_call "sigaddset" (sigset.sigaddset mask signal) >>= add_all signals

  -- a SignalMask of the given signals
  unfoldable pub construct : List ℕ → Outcome G
  unfolding add_all
  construct signals = system_call "sigemptyset" sigset.sigemptyset >>= add_all signals

  -- `for ( signum = 0; signum < SIGRTMAX; signum++ )`, with what is left of the count
  agree : ℕ → ℕ → G → G → Bool
  agree zero signum a b = true
  agree (suc left) signum a b =
      let rest = agree left (suc signum) a b in
      if same_answer (sigset.sigismember a signum) (sigset.sigismember b signum)
      then rest
      else false

  -- `operator==`
  unfoldable pub mask_eq : G → G → Bool
  unfolding agree
  mask_eq a b = agree sigrtmax 0 a b

-- sigprocmask(2) that gives the mask, and that sets it
unfoldable pub current_mask : {G : Type 0} → Option G → Outcome G
current_mask blocked = system_call "sigprocmask" blocked

unfoldable pub set_as_mask : {G : Type 0} → (G → Option ℕ) → G → Outcome (Unit {0})
set_as_mask sigprocmask mask = system_call "sigprocmask" (sigprocmask mask) >>= λ _. ok tt

-- the descriptor of a SignalFD, from the answers of signalfd(2) and of the call that sets FD_CLOEXEC
unfoldable pub signal_fd : Option ℕ → (ℕ → Option ℕ) → Outcome FileDescriptor
unfolding FileDescriptor.construct
signal_fd signalfd fcntl =
    system_call "signalfd" signalfd >>= λ fd. FileDescriptor.construct fd (fcntl fd)

-- `sizeof( signalfd_siginfo )`
abbrev pub sizeof_siginfo : ℕ
sizeof_siginfo = 128

-- a number of four bytes in memory, its lowest byte first
abbrev pub from_little_endian : List ℕ → ℕ
from_little_endian [] = 0
from_little_endian (b ∷ bs) = b + 256 * from_little_endian bs

-- `ssi_signo`, the first field of a signalfd_siginfo
abbrev pub ssi_signo : List ℕ → ℕ
ssi_signo info = from_little_endian (take 4 info)

unfoldable pub read_signal : Os → M FileDescriptor (List ℕ)
unfolding FileDescriptor.read
read_signal os s = FileDescriptor.read os sizeof_siginfo s >>> λ delivered t. (
  throw_if (not (length delivered == sizeof_siginfo)) (runtime_error "signalfd read size mismatch")
      >>= λ _. ok delivered,
  t,
)
