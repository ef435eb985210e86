-- ===== src/Tests/Wire.antt =====
-- Packets, texts and addresses at concrete inputs.
use koho.Prelude.{
  ℕ, ◌<◌, ◌≤◌, ◌≡◌, ◌↔◌, ◌⊎◌, refl, true, List, [], ◌∷◌, ◌++◌, arith, length, take, ok, thrown,
  tagged_error, runtime_error,
}
use koho.Packet
use koho.Packet.Laws.{parse-to_string, to_string-parse, parse_cases, fields_of}
use koho.Splitter.{packet}
use koho.Text.{bytes, to_string}
use koho.Address.{Address, zeros, address_eq, str, of_host, of_ip, explanation, numeric_flags}
use koho.Address.Order.{address_lt_trans, address_lt_total, address_eq_iff}
use koho.Address.Order as Order
use koho.Address.Names.{IsNamed, str_lem, explanation_always_numeric}
use koho.Tests.World.{names, silent_names}

parse-to_string_example :
    Packet.parse (Packet.to_string (packet true 300 (bytes "hi")))
    ≡ ok (packet true 300 (bytes "hi"))
parse-to_string_example = parse-to_string (packet true 300 (bytes "hi")) (omega arith)

-- a datagram of the other side: no new connection, id 7, one byte
abbrev datagram : List ℕ
datagram = zeros 15 ++ 7 ∷ 65 ∷ []

to_string-parse_test : Packet.to_string (fields_of datagram) ≡ datagram
unfolding Packet.parse Packet.from_big_endian
to_string-parse_test =
    to_string-parse datagram {p = fields_of datagram} (omega arith) (omega arith) refl

-- an address with one byte set
abbrev address : ℕ → Address
address b = record { size = 16; raw = b ∷ zeros 127 }

address-IsValid : (b : ℕ) → Order.IsValid (address b)
address-IsValid b = record { raw_size = refl; fits = omega arith }

address_eq_iff_test :
    (address_eq (address 1) (address 2) ≡ true)
    ↔ (take 16 (address 1).raw ≡ take 16 (address 2).raw)
address_eq_iff_test = address_eq_iff (address 1) (address 2) (address-IsValid 1) (address-IsValid 2)

named : IsNamed names (address 1) (bytes "10.0.0.1") 80
unfolding to_string
named = record { named = refl; no_colon = omega arith; is_port = omega arith }

str_lem_test :
    str names (address 1) (bytes ":") ≡ ok (bytes "10.0.0.1" ++ (bytes ":" ++ to_string 80))
str_lem_test = str_lem names (address 1) (bytes "10.0.0.1") (bytes ":") 80 named

explanation_always_numeric_test :
    (of_host silent_names (bytes "a") (to_string 53) ≡ of_ip silent_names (bytes "a") 53)
    × (of_host silent_names (bytes "a") (to_string 53)
        ≡ thrown (tagged_error (explanation (bytes "a") (to_string 53) numeric_flags)))
explanation_always_numeric_test = explanation_always_numeric silent_names (bytes "a") 53 refl refl

parse_cases_test :
    ((length datagram < 8)
      × (Packet.parse datagram ≡ thrown (runtime_error "message too small to parse field ")))
    ⊎ ((8 ≤ length datagram)
        × (length datagram < 16)
        × (Packet.parse datagram ≡ thrown (runtime_error "essage too small to parse field ")))
    ⊎ ((16 ≤ length datagram) × (Packet.parse datagram ≡ ok (fields_of datagram)))
parse_cases_test = parse_cases datagram
