-- ===== src/Address.antt =====
-- src/util/address.{hh,cc}: socket addresses. getaddrinfo and getnameinfo are parameters.
pub mod Order
pub mod Names
use Prim.Native.Nat.{bit_or}
use koho.Prelude.{
  ℕ, zero, suc, ◌+◌, ◌-◌, ◌%◌, ◌^◌, Bool, true, false, ◌&&◌, Option, none, some, List, [], ◌∷◌,
  ◌++◌, ltb, ◌==◌, if◌then◌else◌, not, length, take, Outcome, ok, thrown, throw_if, runtime_error,
  tagged_error, ◌>>=◌, ◌>>◌,
}
use koho.Text.{bytes, to_string, myatoi}

-- `sizeof( raw )`, the size of a sockaddr_storage
abbrev pub sizeof_raw : ℕ
sizeof_raw = 128

abbrev pub sizeof_sockaddr_in : ℕ
sizeof_sockaddr_in = 16

-- `raw` is the union, byte by byte.
pub record Address : Type 0 where
  pub size : ℕ
  pub raw : List ℕ

abbrev pub zeros : ℕ → List ℕ
zeros zero = []
zeros (suc n) = 0 ∷ zeros n

-- The resolver. The answer of getaddrinfo is `none` for a code other than 0, `some none` for a
-- success without an entry, and otherwise the first entry's ai_addr and ai_addrlen. The answer of
-- getnameinfo is the host and the service, as numbers in text, or `none`.
pub record Resolver : Type 0 where
  pub getaddrinfo : List ℕ → List ℕ → ℕ → Option (Option (List ℕ × ℕ))
  pub getnameinfo : List ℕ → ℕ → Option (List ℕ × List ℕ)

-- AI_NUMERICHOST | AI_NUMERICSERV
abbrev pub numeric_flags : ℕ
numeric_flags = bit_or 0x4 0x400

-- `memcpy( &addr_, &addr, size )` over a zeroed union
abbrev pub fill : List ℕ → ℕ → List ℕ
fill addr size = take sizeof_raw (take size addr ++ zeros (sizeof_raw - size))

unfoldable pub of_sockaddr : List ℕ → ℕ → Outcome Address
of_sockaddr addr size = do
  throw_if (ltb sizeof_raw size) (runtime_error "invalid sockaddr size")
  ok (record { size = size; raw = fill addr size })

-- from a sockaddr_in
unfoldable pub of_sockaddr_in : List ℕ → Address
of_sockaddr_in addr = record { size = sizeof_sockaddr_in; raw = fill addr sizeof_sockaddr_in }

-- the text of the exception of a failed getaddrinfo
unfoldable pub explanation : List ℕ → List ℕ → ℕ → List ℕ
explanation node service flags =
    bytes "getaddrinfo("
    ++ (node
        ++ (bytes ":"
            ++ (service
                ++ ((if bit_or flags numeric_flags == 0 then [] else bytes ", numeric")
                    ++ bytes ")"))))

first_entry : Option (List ℕ × ℕ) → Outcome Address
unfolding of_sockaddr
first_entry none = thrown (runtime_error "getaddrinfo returned successfully but with no results")
first_entry (some (addr, len)) = of_sockaddr addr len

resolved : List ℕ → List ℕ → ℕ → Option (Option (List ℕ × ℕ)) → Outcome Address
unfolding explanation first_entry
resolved node service flags none = thrown (tagged_error (explanation node service flags))
resolved node service flags (some entry) = first_entry entry

-- the port as a uint16_t
numbers : Option (List ℕ × List ℕ) → Outcome (List ℕ × ℕ)
numbers none = thrown (tagged_error (bytes "getnameinfo"))
numbers (some (ip, port)) = myatoi port 10 >>= λ n. ok (ip, n % 2 ^ 16)

module _ (names : Resolver) where
  -- the private constructor; of the hints, ai_family is always AF_INET
  unfoldable pub resolve : List ℕ → List ℕ → ℕ → Outcome Address
  unfolding resolved
  resolve node service flags = resolved node service flags (names.getaddrinfo node service flags)

  unfoldable pub of_host : List ℕ → List ℕ → Outcome Address
  unfolding resolve
  of_host hostname service = resolve hostname service 0

  unfoldable pub of_ip : List ℕ → ℕ → Outcome Address
  unfolding resolve
  of_ip ip port = resolve ip (to_string port) numeric_flags

  unfoldable pub default_address : Outcome Address
  unfolding of_ip
  default_address = of_ip (bytes "0") 0

  unfoldable pub cgnat : ℕ → Outcome Address
  unfolding of_ip
  cgnat last_octet = of_ip (bytes "100.64.0." ++ to_string last_octet) 0

  unfoldable pub ip_port : Address → Outcome (List ℕ × ℕ)
  unfolding numbers
  ip_port a = numbers (names.getnameinfo a.raw a.size)

  unfoldable pub ip : Address → Outcome (List ℕ)
  unfolding ip_port
  ip a = ip_port a >>= λ p. ok p.0

  unfoldable pub str : Address → List ℕ → Outcome (List ℕ)
  unfolding ip_port
  str a separator = ip_port a >>= λ p. ok (p.0 ++ (separator ++ to_string p.1))

-- memcmp: 0, or which side has the smaller byte where they first differ
pub data Memcmp : Type 0 where
  equal less greater : Memcmp

pub memcmp : List ℕ → List ℕ → Memcmp
memcmp [] ys = equal
memcmp (x ∷ xs) [] = equal
memcmp (x ∷ xs) (y ∷ ys) =
    let rest = memcmp xs ys in if ltb x y then less else if ltb y x then greater else rest

unfoldable pub is_equal : Memcmp → Bool
is_equal equal = true
is_equal less = false
is_equal greater = false

unfoldable pub is_less : Memcmp → Bool
is_less equal = false
is_less less = true
is_less greater = false

-- `operator==`: the bytes that this address uses
unfoldable pub address_eq : Address → Address → Bool
unfolding memcmp is_equal
address_eq a b = is_equal (memcmp (take a.size a.raw) (take a.size b.raw))

-- `operator<`: the whole union
unfoldable pub address_lt : Address → Address → Bool
unfolding memcmp is_less
address_lt a b = is_less (memcmp (take sizeof_raw a.raw) (take sizeof_raw b.raw))
