-- ===== src/Interfaces/Routes.antt =====
-- The constructor of Interfaces: the addresses of the interfaces, and the destinations of the routes,
-- which stand in /proc/net/route in hexadecimal, as they lie in memory.
use koho.Prelude.{
  ℕ, zero, suc, ◌+◌, ◌-◌, ◌/◌, ◌%◌, ◌^◌, Bool, false, not, Option, none, some, List, [], ◌∷◌, ◌++◌,
  ◌==◌, if◌then◌else◌, is_empty, take, drop, Outcome, ok, thrown, running, runtime_error, throw_if,
  system_call, M, ◌>>=◌, ◌>>>◌,
}
use koho.Text.{bytes, find, find_text, myatoi}
use koho.FileDescriptor
use koho.FileDescriptor.{FileDescriptor, Os, buffer_size}
use koho.Address.{Address, of_sockaddr, of_sockaddr_in, sizeof_sockaddr_in}
use koho.Util.{Files}

-- An entry of getifaddrs(3): `ifa_addr` with its `sa_family`, or a null pointer.
pub record Ifaddr : Type 0 where
  pub family : ℕ
  pub bytes_of : List ℕ

-- AF_INET
abbrev pub af_inet : ℕ
af_inet = 2

unfoldable pub interface_addresses : List (Option Ifaddr) → Outcome (List Address)
unfolding of_sockaddr
interface_addresses [] = ok []
interface_addresses (none ∷ rest) = interface_addresses rest
interface_addresses (some a ∷ rest) =
    let others = interface_addresses rest in
    if a.family == af_inet
    then (do
      address ← of_sockaddr a.bytes_of sizeof_sockaddr_in
      more ← others
      ok (address ∷ more))
    else others

-- `while ( true )` over the reads, with the kernel of each
unfoldable pub read_all : List Os → List ℕ → M FileDescriptor (List ℕ)
unfolding FileDescriptor.read
read_all [] all_routes s = (running, s)
read_all (os ∷ rounds) all_routes s = FileDescriptor.read os buffer_size s >>> λ new_chunk t.
    if is_empty new_chunk then (ok all_routes, t) else read_all rounds (all_routes ++ new_chunk) t

-- the lines that `getline` gives: a text behind the last end of line is one, unless it is empty
unfoldable pub lines : List ℕ → List (List ℕ)
lines [] = []
lines (b ∷ rest) =
    let others = lines rest in if b == b'\n' then [] ∷ others else first_line b others
  where
    first_line : ℕ → List (List ℕ) → List (List ℕ)
    first_line c [] = (c ∷ []) ∷ []
    first_line c (l ∷ ls) = (c ∷ l) ∷ ls

abbrev pub shift : ℕ → Option ℕ → Option ℕ
shift from none = none
shift from (some n) = some (from + n)

-- `find( "\t", from )`
abbrev pub find_tab : List ℕ → ℕ → Option ℕ
find_tab line from = shift from (find b'\t' (drop from line))

-- what lies between the two tabs, if they are there and eight bytes lie there
abbrev cut : List ℕ → ℕ → Option ℕ → Outcome (List ℕ)
cut line start none = thrown (runtime_error "/proc/net/route line: unknown format")
cut line start (some end) =
    throw_if (not (end - (start + 1) == 8))
      (runtime_error "/proc/net/route destination address: unknown format")
    >>= λ _. ok (take 8 (drop (start + 1) line))

abbrev cut_behind : List ℕ → Option ℕ → Outcome (List ℕ)
cut_behind line none = thrown (runtime_error "/proc/net/route line: unknown format")
cut_behind line (some start) = cut line start (find_tab line (start + 1))

-- the destination, between the first tab and the second
unfoldable pub destination : List ℕ → Outcome (List ℕ)
unfolding find
destination line = cut_behind line (find b'\t' line)

-- a number of four bytes in memory, its lowest byte first
abbrev pub to_little_endian : ℕ → ℕ → List ℕ
to_little_endian zero n = []
to_little_endian (suc k) n = n % 256 ∷ to_little_endian k (n / 256)

-- a sockaddr_in with its family, no port, and `s_addr`, which is 32 bits of a long int
abbrev pub sockaddr_in : ℕ → List ℕ
sockaddr_in s_addr =
    to_little_endian 2 af_inet
    ++ (0 ∷ 0 ∷ to_little_endian 4 (s_addr % 2 ^ 32) ++ (0 ∷ 0 ∷ 0 ∷ 0 ∷ 0 ∷ 0 ∷ 0 ∷ 0 ∷ []))

unfoldable pub route_address : List ℕ → Outcome Address
unfolding destination myatoi of_sockaddr_in
route_address line = do
  dest_address ← destination line
  n ← myatoi dest_address 16
  ok (of_sockaddr_in (sockaddr_in n))

unfoldable pub route_addresses : List (List ℕ) → Outcome (List Address)
unfolding route_address
route_addresses [] = ok []
route_addresses (line ∷ rest) = do
  address ← route_address line
  others ← route_addresses rest
  ok (address ∷ others)

-- a place that is 0
abbrev pub at_front : Option ℕ → Bool
at_front none = false
at_front (some n) = n == 0

-- the header row is checked, and gives no address
unfoldable pub with_header : List (List ℕ) → Outcome (List Address)
unfolding route_addresses find_text
with_header [] = ok []
with_header (header_line ∷ rest) =
    let routes = route_addresses rest in
    if at_front (find_text (bytes "Iface") header_line)
    then routes
    else thrown (runtime_error "/proc/net/route: unknown format")

-- Without any text there are no routes.
unfoldable pub parse_routes : List ℕ → Outcome (List Address)
unfolding lines with_header
parse_routes all_routes = with_header (lines all_routes)

unfoldable pub construct : Option (List (Option Ifaddr)) → Files → List Os → Outcome (List Address)
unfolding interface_addresses FileDescriptor.construct read_all parse_routes
construct getifaddrs files rounds = do
  entries ← system_call "getifaddrs" getifaddrs
  interfaces ← interface_addresses entries
  fd ← system_call "open /proc/net/route" (files.open_read (bytes "/proc/net/route"))
  routes ← FileDescriptor.construct fd (files.fcntl fd)
  all_routes ← (read_all rounds [] routes).0
  routed ← parse_routes all_routes
  ok (interfaces ++ routed)
