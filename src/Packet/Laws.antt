-- ===== src/Packet/Laws.antt =====
-- What a datagram carries from one side of the splitter to the other.
use koho.Prelude.{
  ℕ, ◌+◌, ◌*◌, ◌^◌, ◌≤◌, ◌<◌, ◌≡◌, refl, sym, ◌⊎◌, inl, inr, Bool, true, false, List, [], ◌++◌,
  append_assoc, arith, ltb, le→not_ltb, ltb→lt, Bool-cases, length, length-append, length-take,
  length-drop, take, drop, take-append_left, drop-append_left, take-append-drop, take-take-drop,
  All, All-take, All-drop, Exception, runtime_error, ok, thrown,
}
use koho.Packet.{
  Header, SplitTcpPacket, to_big_endian, from_big_endian, get_header_field, put_header_field,
  bool_to_uint64, uint64_to_bool, parse_header, header_to_string, to_string, parse, size_of_header,
}
use koho.Packet.Words.{
  IsByte, IsUint64, length-to_big_endian, from_big_endian-to_big_endian,
  to_big_endian-from_big_endian,
}

-- The word at an offset of whole words is the field of that number.
get_header_field-append :
    (n : ℕ) (front word rest : List ℕ)
    → length front ≡ n * 8
    → length word ≡ 8
    → get_header_field n (front ++ (word ++ rest)) ≡ ok (from_big_endian 0 word)
unfolding get_header_field
get_header_field-append n front word rest hf hw = rw (
  le→not_ltb _ _ enough,
  drop-append_left front (word ++ rest) (n * 8) (omega arith),
  take-append_left word rest 8 (omega arith),
)
  where
    enough : (n + 1) * 8 ≤ length (front ++ (word ++ rest))
    enough = omega (arith, length-append front (word ++ rest), length-append word rest)

length-header_to_string : (h : Header) → length (header_to_string h) ≡ 16
unfolding header_to_string put_header_field
length-header_to_string h =
    let flag = to_big_endian 8 (bool_to_uint64 h.new_connection) in
    let uid = to_big_endian 8 h.uid in
    omega (
      arith,
      length-append flag uid,
      length-to_big_endian 8 (bool_to_uint64 h.new_connection),
      length-to_big_endian 8 h.uid,
    )

-- A packet takes the header's 16 bytes and the body's.
pub length-to_string : (p : SplitTcpPacket) → length (to_string p) ≡ size_of_header + length p.body
unfolding to_string
length-to_string p =
    omega
      (arith, length-append (header_to_string p.header) p.body, length-header_to_string p.header)

bool_round_trip : (b : Bool) → uint64_to_bool (bool_to_uint64 b) ≡ b
bool_round_trip true = refl
bool_round_trip false = refl

bool_fits : (b : Bool) → bool_to_uint64 b < 256 ^ 8
bool_fits true = omega arith
bool_fits false = omega arith

parse_header-to_string :
    (h : Header) (body : List ℕ) → IsUint64 h.uid → parse_header (header_to_string h ++ body) ≡ ok h
unfolding parse_header header_to_string put_header_field
parse_header-to_string h body fits = rw (
  append_assoc flag uid body,
  get_header_field-append 0 [] flag (uid ++ body) refl length-flag,
  get_header_field-append 1 flag uid body length-flag length-uid,
  from_big_endian-to_big_endian 8 (bool_to_uint64 h.new_connection) (bool_fits _),
  from_big_endian-to_big_endian 8 h.uid (omega arith),
  bool_round_trip,
)
  where
    flag : List ℕ
    flag = to_big_endian 8 (bool_to_uint64 h.new_connection)

    uid : List ℕ
    uid = to_big_endian 8 h.uid

    length-flag : length flag ≡ 8
    length-flag = length-to_big_endian 8 (bool_to_uint64 h.new_connection)

    length-uid : length uid ≡ 8
    length-uid = length-to_big_endian 8 h.uid

-- Parsing what a packet was written as gives the packet back, for every uint64_t id and every body.
pub parse-to_string : (p : SplitTcpPacket) → IsUint64 p.header.uid → parse (to_string p) ≡ ok p
unfolding parse to_string
parse-to_string p h = rw (
  parse_header-to_string p.header p.body h,
  drop-append_left (header_to_string p.header) p.body 16 (sym (length-header_to_string p.header)),
)

-- What the wire format says that a string of 16 bytes or more holds.
abbrev pub fields_of : List ℕ → SplitTcpPacket
fields_of str = record {
  header = record {
    new_connection = uint64_to_bool (from_big_endian 0 (take 8 str));
    uid = from_big_endian 0 (take 8 (drop 8 str));
  };
  body = drop 16 str;
}

-- Every string has one of three fates: with 16 bytes or more it parses to the packet of its fields,
-- and with fewer it is refused by the first field that is cut off, where the text for the second
-- field lacks its first letter.
pub parse_cases :
    (str : List ℕ)
    → ((length str < 8) × (parse str ≡ thrown (runtime_error "message too small to parse field ")))
      ⊎ ((8 ≤ length str)
          × (length str < 16)
          × (parse str ≡ thrown (runtime_error "essage too small to parse field ")))
      ⊎ ((16 ≤ length str) × (parse str ≡ ok (fields_of str)))
unfolding parse
parse_cases str = elim (Bool-cases (ltb (length str) 8)) [
  | inl short ↦ inl (ltb→lt _ _ short, rw short)
  | inr long ↦ elim (Bool-cases (ltb (length str) 16)) [
    | inl cut ↦ inr (inl (ground arith, ltb→lt _ _ cut, rw (long, cut)))
    | inr whole ↦ inr (inr (ground arith, rw (long, whole)))
  ]
]

flag_round_trip : (v : ℕ) → v ≤ 1 → bool_to_uint64 (uint64_to_bool v) ≡ v
flag_round_trip v h = ground arith

-- A string of bytes whose first word is 0 or 1 and that parses is written again as it was read.
pub to_string-parse :
    (str : List ℕ) {p : SplitTcpPacket}
    → All IsByte str
    → from_big_endian 0 (take 8 str) ≤ 1
    → parse str ≡ ok p
    → to_string p ≡ str
unfolding to_string header_to_string put_header_field
to_string-parse str {p} bytes flag e = elim (parse_cases str) [
  | inl (_, r) ↦ cc
  | inr (inl (_, _, r)) ↦ cc
  | inr (inr (long, r)) ↦ rw (is_fields r) (written long)
]
  where
    is_fields : parse str ≡ ok (fields_of str) → p ≡ fields_of str
    is_fields r = cc

    written : 16 ≤ length str → to_string (fields_of str) ≡ str
    written long =
        rw
          (
            flag_round_trip (from_big_endian 0 (take 8 str)) flag,
            to_big_endian-from_big_endian 8 (take 8 str) (omega (arith, length-take 8 str))
                (All-take IsByte 8 str bytes),
            to_big_endian-from_big_endian 8 (take 8 (drop 8 str))
                (omega (arith, length-take 8 (drop 8 str), length-drop 8 str))
                (All-take IsByte 8 (drop 8 str) (All-drop IsByte 8 str bytes)),
            take-take-drop 8 8 str,
          )
          (take-append-drop 16 str)

-- Nothing else comes of a parse.
pub parse_total :
    (str : List ℕ)
    → ((e : Exception) × (parse str ≡ thrown e)) ⊎ ((p : SplitTcpPacket) × (parse str ≡ ok p))
parse_total str = elim (parse_cases str) [
  | inl (_, e) ↦ inl (_, e)
  | inr (inl (_, _, e)) ↦ inl (_, e)
  | inr (inr (_, e)) ↦ inr (_, e)
]
