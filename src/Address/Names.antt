-- ===== src/Address/Names.antt =====
-- Addresses as text: what `str` prints, and how a reader takes it apart again.
use native.Mathlib.Nat.{suc-add}
use koho.Prelude.{
  ℕ, ◌+◌, ◌%◌, ◌^◌, ◌<◌, ◌≡◌, refl, ap, ◌∙◌, ◌≢◌, none, some, List, [], ◌∷◌, ◌++◌, arith, length,
  take, drop, take-append_left, All, ok, thrown, tagged_error,
}
use koho.Text.{to_string, find, atoi_uint16}
use koho.Text.Decimal.{myatoi-to_string, atoi_uint16-to_string}
use koho.Address.{Address, Resolver, explanation, numeric_flags, str, of_host, of_ip}

pub find-append :
    (c : ℕ) (xs ys : List ℕ) → All (λ x. x ≢ c) xs → find c (xs ++ c ∷ ys) ≡ some (length xs)
unfolding find
find-append c [] ys h = ground arith
find-append c (x ∷ xs) ys h = ground (arith, find-append c xs ys h.1)

-- getnameinfo gives a host without a colon, and the port in decimal.
pub record IsNamed (names : Resolver) (a : Address) (host : List ℕ) (port : ℕ) : Type 0 where
  pub named : names.getnameinfo a.raw a.size ≡ some (host, to_string port)
  pub no_colon : All (λ x. x ≢ b':') host
  pub is_port : port < 2 ^ 16

-- An address that the resolver names by a host without a colon and a port is printed as the host,
-- the separator and the port in decimal.
pub str_lem :
    (names : Resolver) (a : Address) (host separator : List ℕ) (port : ℕ)
    → IsNamed names a host port
    → str names a separator ≡ ok (host ++ (separator ++ to_string port))
unfolding str
str_lem names a host separator port h =
    let whole : port % 2 ^ 16 ≡ port = omega (arith, h.is_port) in
    rw (h.named, myatoi-to_string port (omega (arith, h.is_port)), whole)

-- A text made of a host, a colon and a decimal port is cut by its first colon into just these.
pub cut_at_colon :
    (host : List ℕ) (port : ℕ)
    → All (λ x. x ≢ b':') host
    → port < 2 ^ 16
    → let text = host ++ (b':' ∷ to_string port) in
      (find b':' text ≡ some (length host))
      × (take (length host) text ≡ host)
      × (atoi_uint16 (drop (length host + 1) text) ≡ port)
cut_at_colon host port no_colon is_port = (
  find-append b':' host (to_string port) no_colon,
  take-append_left host (b':' ∷ to_string port) (length host) refl,
  ap atoi_uint16 (behind host (to_string port)) ∙ atoi_uint16-to_string port is_port,
)
  where
    behind : (xs ys : List ℕ) → drop (length xs + 1) (xs ++ b':' ∷ ys) ≡ ys
    behind [] ys = refl
    behind (x ∷ xs) ys = rw suc-add (behind xs ys)

-- When a host name can be resolved neither as a name nor as a number, both constructors throw the
-- same text, which says that the lookup was numeric.
pub explanation_always_numeric :
    (names : Resolver) (node : List ℕ) (port : ℕ)
    → names.getaddrinfo node (to_string port) 0 ≡ none
    → names.getaddrinfo node (to_string port) numeric_flags ≡ none
    → (of_host names node (to_string port) ≡ of_ip names node port)
      × (of_host names node (to_string port)
          ≡ thrown (tagged_error (explanation node (to_string port) numeric_flags)))
unfolding of_host of_ip
explanation_always_numeric names node port h k = (rw (h, k), rw h)
