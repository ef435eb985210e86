-- ===== src/Util.antt =====
-- src/util/util.{hh,cc} but for its user and group ids (Privileges.antt): the checks at the start of a
-- program, directories, name servers, the shell and its environment. The answers of the C library and
-- of the kernel are parameters.
pub mod Laws
use koho.Prelude.{
  ℕ, zero, suc, ◌+◌, ◌*◌, ◌/◌, ◌%◌, ◌^◌, sub_size, String, Bool, true, false, ◌&&◌, ◌||◌, not,
  Option, none, some, List, [], ◌∷◌, ◌++◌, ◌==◌, if◌then◌else◌, is_empty, get_elem?, is_negative,
  Exception, Outcome, ok, thrown, aborted, undefined, throw_if, assert, runtime_error, runtime_text,
  unix_error, tagged_error, system_call, system_call_text, M, ◌>>=◌, ◌>>◌, ◌>>>◌,
}
use koho.Text.{bytes, same_text}
use koho.FileDescriptor
use koho.FileDescriptor.{Os, buffer_size}
use koho.Address.{Address, of_sockaddr_in}
use koho.Packet.{from_big_endian}

-- open(2) for reading, and the calls on what it gives
pub record Files : Type 0 where
  pub os : Os
  pub open_read : List ℕ → Option ℕ
  pub fcntl : ℕ → Option ℕ

-- a text with an end of line
abbrev pub line : String → List ℕ
line s = bytes s ++ b'\n' ∷ []

-- `environ_set` is whether `environ` is not null.
unfoldable pub check_requirements : Files → ℕ → Bool → ℕ → List ℕ → Outcome (Unit {0})
unfolding FileDescriptor.construct FileDescriptor.read
check_requirements files euid environ_set argc name = do
  throw_if (is_negative argc || argc == 0) (runtime_error "missing argv[ 0 ]: argc <= 0")
  null ← system_call "open /dev/null" (files.open_read (bytes "/dev/null"))
  closed ← FileDescriptor.construct null (files.fcntl null)
  throw_if (not (euid == 0)) (runtime_text (name ++ bytes ": needs to be installed setuid root"))
  throw_if environ_set (runtime_error "BUG: environment not cleared in sensitive region")
  fd ←
      system_call "open /proc/sys/net/ipv4/ip_forward"
        (files.open_read (bytes "/proc/sys/net/ipv4/ip_forward"))
  ipf ← FileDescriptor.construct fd (files.fcntl fd)
  contents ← (FileDescriptor.read files.os buffer_size ipf).0
  throw_if (not (same_text contents (line "1"))) (
      runtime_text (
        name
        ++ bytes ": Please run \"sudo sysctl -w net.ipv4.ip_forward=1\" to enable IP forwarding"))

-- `accumulate` with a space between
join_rest : List ℕ → List (List ℕ) → List ℕ
join_rest a [] = a
join_rest a (b ∷ command) = join_rest (a ++ (bytes " " ++ b)) command

-- `front()` of an empty vector is undefined.
unfoldable pub join : List (List ℕ) → Outcome (List ℕ)
unfolding join_rest
join [] = undefined
join (word ∷ command) = ok (join_rest word command)

abbrev pub or_default : List ℕ → List ℕ → List ℕ
or_default default text = if is_empty text then default else text

-- the user's shell, from the entry of getpwuid(3); an empty one is _PATH_BSHELL
unfoldable pub shell_path : Option (List ℕ) → Outcome (List ℕ)
shell_path none = thrown (unix_error "getpwuid")
shell_path (some pw_shell) = ok (or_default (bytes "/bin/sh") pw_shell)

-- `directory.back() == '/'`
abbrev pub ends_in_slash : List ℕ → Bool
ends_in_slash [] = false
ends_in_slash (b ∷ rest) = if is_empty rest then b == b'/' else ends_in_slash rest

-- 00700
abbrev pub mode_700 : ℕ
mode_700 = 7 * 64

unfoldable pub make_directory : (List ℕ → ℕ → Option ℕ) → List ℕ → Outcome ℕ
make_directory mkdir directory = do
  assert (not (is_empty directory))
  assert (ends_in_slash directory)
  system_call_text (bytes "mkdir " ++ directory) (mkdir directory mode_700)

-- MAXNS
abbrev pub maxns : ℕ
maxns = 3

-- `sin_port` of a sockaddr_in, which stands behind its family
abbrev pub sin_port : List ℕ → ℕ
sin_port (a ∷ b ∷ high ∷ low ∷ rest) = from_big_endian 0 (high ∷ low ∷ [])
sin_port addr = 0

-- `_res.nsaddr` is the first of `_res.nsaddr_list`, an array of MAXNS entries.
unfoldable pub first_nameserver : Option ℕ → (ℕ → List ℕ) → Outcome Address
unfolding of_sockaddr_in
first_nameserver res_init nsaddr_list =
    system_call "res_init" res_init >>= λ _. ok (of_sockaddr_in (nsaddr_list 0))

-- `for ( i < MAXNS )`, with what is left of the count
nameservers_from : ℕ → ℕ → (ℕ → List ℕ) → List Address
unfolding of_sockaddr_in
nameservers_from zero i nsaddr_list = []
nameservers_from (suc left) i nsaddr_list =
    let rest = nameservers_from left (suc i) nsaddr_list in
    if sin_port (nsaddr_list i) == 0 then rest else of_sockaddr_in (nsaddr_list i) ∷ rest

unfoldable pub all_nameservers : Option ℕ → (ℕ → List ℕ) → Outcome (List Address)
unfolding nameservers_from
all_nameservers res_init nsaddr_list =
    system_call "res_init" res_init >>= λ _. ok (nameservers_from maxns 0 nsaddr_list)

-- setenv(3), on an environment that only it and getenv(3) know
pub record Environ (E : Type 0) : Type 0 where
  pub getenv : List ℕ → E → Option (List ℕ)
  pub setenv : List ℕ → List ℕ → E → Option ℕ × E

abbrev pub or_empty : Option (List ℕ) → List ℕ
or_empty none = []
or_empty (some text) = text

unfoldable pub prepend_shell_prefix : {E : Type 0} → Environ E → List ℕ → M E (Unit {0})
prepend_shell_prefix environ str e =
    let prefix = or_empty (environ.getenv (bytes "MAHIMAHI_SHELL_PREFIX") e) in
    let (first, e1) = environ.setenv (bytes "MAHIMAHI_SHELL_PREFIX") (prefix ++ str) e in
    (system_call "setenv" first, e1) >>> λ _ e2.
    let (second, e3) =
      environ.setenv (bytes "PROMPT_COMMAND")
        (bytes "PS1=\"$MAHIMAHI_SHELL_PREFIX$PS1\" PROMPT_COMMAND=") e2 in
    (system_call "setenv" second, e3) >>> λ _ e4. (ok tt, e4)

abbrev pub is_dots : List ℕ → Bool
is_dots entry = same_text entry (bytes ".") || same_text entry (bytes "..")

listed : List ℕ → List (List ℕ) → List (List ℕ)
listed dir [] = []
listed dir (entry ∷ entries) =
    let rest = listed dir entries in if is_dots entry then rest else (dir ++ entry) ∷ rest

-- a deleter throws in a destructor, which ends the program
abbrev closing {ℓ} : {A : Type ℓ} → Option ℕ → A → Outcome A
closing none result = aborted
closing (some n) result = ok result

-- `opendir` gives the entries that readdir(3) brings, in its order; `closedir` is the answer when the
-- directory is closed.
unfoldable pub list_directory_contents :
    List ℕ → Option (List (List ℕ)) → Option ℕ → Outcome (List (List ℕ))
unfolding listed
list_directory_contents dir none closedir =
    thrown (tagged_error (bytes "opendir (" ++ (dir ++ bytes ")")))
list_directory_contents dir (some entries) closedir = closing closedir (listed dir entries)

unfoldable pub get_working_directory : Option (List ℕ) → Outcome (List ℕ)
get_working_directory none = thrown (unix_error "getcwd")
get_working_directory (some cwd) = ok cwd

-- src/util/timestamp.cc: a timespec in milliseconds, as a uint64_t
unfoldable pub raw_timestamp : Option (ℕ × ℕ) → Outcome ℕ
raw_timestamp clock =
    system_call "clock_gettime" clock >>= λ ts. ok ((ts.1 / 1000000 + ts.0 * 1000) % 2 ^ 64)

-- The static variable is set by the first call.
unfoldable pub initial_timestamp : Option (ℕ × ℕ) → M (Option ℕ) ℕ
unfolding raw_timestamp
initial_timestamp clock (some initial) = (ok initial, some initial)
initial_timestamp clock none = (raw_timestamp clock, none) >>> λ now _. (ok now, some now)

-- In which order the operands of the subtraction are evaluated is for the compiler to choose; the
-- clock is read for each.
unfoldable pub timestamp : Bool → Option (ℕ × ℕ) → Option (ℕ × ℕ) → M (Option ℕ) ℕ
unfolding raw_timestamp initial_timestamp
timestamp left_first now_clock start_clock initial = elim left_first [
  | true ↦ (raw_timestamp now_clock, initial) >>> λ now s.
      initial_timestamp start_clock s >>> λ start t. (ok (sub_size now start), t)
  | false ↦ initial_timestamp start_clock initial >>> λ start s.
      (raw_timestamp now_clock, s) >>> λ now t. (ok (sub_size now start), t)
]
