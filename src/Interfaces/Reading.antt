-- ===== src/Interfaces/Reading.antt =====
-- What the constructor of Interfaces makes of a table of routes.
use koho.Prelude.{
  ◌<◌, ◌*◌, ◌%◌, ◌/◌, ◌^◌, ℕ, suc, ◌+◌, ◌-◌, ◌≡◌, refl, sym, ap, ◌∙◌, ◌≢◌, true, false, some, List,
  [], ◌∷◌, ◌++◌, map, append_assoc, append-nil, arith, All, concat, length, drop, take-append_left,
  is_empty, ◌==◌, ok,
}
use koho.Text.{bytes, find_text, starts_with, myatoi}
use koho.FileDescriptor.{FileDescriptor, Os, buffer_size, read}
use koho.Address.{Address, of_sockaddr_in, fill, zeros}
use koho.Address.Names.{find-append}
use koho.Interfaces.Routes.{
  to_little_endian, read_all, lines, destination, sockaddr_in, route_address, route_addresses,
  with_header, parse_routes,
}

abbrev pub Lacks : ℕ → List ℕ → Type 0
Lacks c = All (λ b. b ≢ c)

lines-append : (l rest : List ℕ) → Lacks b'\n' l → lines (l ++ b'\n' ∷ rest) ≡ l ∷ lines rest
unfolding lines
lines-append [] rest h = refl
lines-append (b ∷ l) rest h =
    let other : (b == b'\n') ≡ false = ground (arith, h.0) in
    rw (lines-append l rest h.1, other) refl

drop-append_one : (l rest : List ℕ) (c : ℕ) → drop (length l + 1) (l ++ c ∷ rest) ≡ rest
drop-append_one [] rest c = refl
drop-append_one (b ∷ l) rest c =
    let next : suc (length l) + 1 ≡ suc (length l + 1) = omega arith in
    rw next (drop-append_one l rest c)

-- A row of /proc/net/route: the interface, the destination in eight characters, the rest, and the four
-- bytes of the destination in memory.
pub record Row : Type 0 where
  pub interface : List ℕ
  pub dest : List ℕ
  pub others : List ℕ
  pub byte0 : ℕ
  pub byte1 : ℕ
  pub byte2 : ℕ
  pub byte3 : ℕ

abbrev pub row_text : Row → List ℕ
row_text r = r.interface ++ b'\t' ∷ (r.dest ++ b'\t' ∷ r.others)

pub record IsRow (r : Row) : Type 0 where
  pub interface_tab : Lacks b'\t' r.interface
  pub dest_tab : Lacks b'\t' r.dest
  pub dest_size : length r.dest ≡ 8
  pub one_line : Lacks b'\n' (row_text r)
  pub are_bytes : (r.byte0 < 256) × (r.byte1 < 256) × (r.byte2 < 256) × (r.byte3 < 256)
  pub its_number :
      myatoi r.dest 16 ≡ ok (r.byte0 + 256 * r.byte1 + 65536 * r.byte2 + 16777216 * r.byte3)

-- the address of those four bytes: AF_INET, no port, and nothing behind them
abbrev pub route_to : Row → Address
route_to r = record {
  size = 16;
  raw =
      fill
        (2 ∷ 0 ∷ 0 ∷ 0 ∷ r.byte0 ∷ r.byte1 ∷ r.byte2 ∷ r.byte3 ∷ 0 ∷ 0 ∷ 0 ∷ 0 ∷ 0 ∷ 0 ∷ 0 ∷ 0 ∷ [])
        16;
}

four_bytes :
    (a b c d : ℕ)
    → a < 256
    → b < 256
    → c < 256
    → d < 256
    → to_little_endian 4 ((a + 256 * b + 65536 * c + 16777216 * d) % 2 ^ 32) ≡ a ∷ b ∷ c ∷ d ∷ []
four_bytes a b c d ha hb hc hd =
    let n = (a + 256 * b + 65536 * c + 16777216 * d) % 2 ^ 32 in
    let e0 : n % 256 ≡ a = omega arith in
    let e1 : n / 256 % 256 ≡ b = omega arith in
    let e2 : n / 256 / 256 % 256 ≡ c = omega arith in
    let e3 : n / 256 / 256 / 256 % 256 ≡ d = omega arith in λ i. e0 i ∷ e1 i ∷ e2 i ∷ e3 i ∷ []

route_to_lem :
    (r : Row)
    → IsRow r
    → of_sockaddr_in (sockaddr_in (r.byte0 + 256 * r.byte1 + 65536 * r.byte2 + 16777216 * r.byte3))
      ≡ route_to r
unfolding of_sockaddr_in
route_to_lem r h =
    let (small0, small1, small2, small3) = h.are_bytes in
    ap (λ l. record { size = 16; raw = fill (2 ∷ 0 ∷ 0 ∷ 0 ∷ (l ++ zeros 8)) 16 })
      (four_bytes r.byte0 r.byte1 r.byte2 r.byte3 small0 small1 small2 small3)

abbrev pub table : List Row → List ℕ
table [] = []
table (r ∷ rows) = row_text r ++ b'\n' ∷ table rows

destination_lem : (r : Row) → IsRow r → destination (row_text r) ≡ ok r.dest
unfolding destination
destination_lem r h =
    let first = find-append b'\t' r.interface (r.dest ++ b'\t' ∷ r.others) h.interface_tab in
    let second = find-append b'\t' r.dest r.others h.dest_tab in
    let behind = drop-append_one r.interface (r.dest ++ b'\t' ∷ r.others) b'\t' in
    let eight : (length r.interface + 1 + length r.dest - (length r.interface + 1) == 8) ≡ true =
      ground (arith, h.dest_size) in
    rw (first, behind, second, eight, behind)
      (ap ok (take-append_left r.dest (b'\t' ∷ r.others) 8 (sym h.dest_size)))

route_addresses_lem :
    (rows : List Row)
    → All IsRow rows
    → route_addresses (map row_text rows) ≡ ok (map route_to rows)
unfolding route_addresses route_address
route_addresses_lem [] h = refl
route_addresses_lem (r ∷ rows) h =
    rw (destination_lem r h.0, h.0.its_number, route_to_lem r h.0, route_addresses_lem rows h.1)
      refl

lines-table : (rows : List Row) → All IsRow rows → lines (table rows) ≡ map row_text rows
lines-table [] h = unfold lines in refl
lines-table (r ∷ rows) h =
    lines-append (row_text r) (table rows) h.0.one_line
    ∙ ap (λ l. row_text r ∷ l) (lines-table rows h.1)

-- A file whose first line starts with "Iface", and whose other lines are rows: the constructor takes
-- just the addresses of the four bytes of the rows, whose lowest is the first
-- in memory, without a port, for addresses in use, in order.
pub parse_routes-table :
    (header : List ℕ) (rows : List Row)
    → Lacks b'\n' header
    → starts_with (bytes "Iface") header ≡ true
    → All IsRow rows
    → parse_routes (header ++ b'\n' ∷ table rows) ≡ ok (map route_to rows)
unfolding parse_routes with_header find_text
parse_routes-table [] rows one_line front h = cc front
parse_routes-table (b ∷ header) rows one_line front h =
    rw (lines-append (b ∷ header) (table rows) one_line, lines-table rows h, front)
      (route_addresses_lem rows h)

-- The reads of the file, each with what it brings, and the last with nothing.
abbrev pub Reads : ℕ → List Os → List (List ℕ) → Type 0
Reads fd [] chunks = ⊥
Reads fd (os ∷ rounds) [] = os.read fd buffer_size ≡ some []
Reads fd (os ∷ rounds) (c ∷ chunks) =
    (os.read fd buffer_size ≡ some c) × (is_empty c ≡ false) × Reads fd rounds chunks

-- The loop reads to the end of the file, in whatever pieces it comes.
pub read_all_lem :
    (rounds : List Os) (chunks : List (List ℕ)) (front : List ℕ) (s : FileDescriptor)
    → Reads s.fd rounds chunks
    → (read_all rounds front s).0 ≡ ok (front ++ concat chunks)
unfolding read_all read
read_all_lem [] chunks front s h = absurd h
read_all_lem (os ∷ rounds) [] front s h = rw h (ap ok (sym (append-nil front)))
read_all_lem (os ∷ rounds) (c ∷ chunks) front s h =
    rw (h.0, h.1)
      (read_all_lem rounds chunks (front ++ c) _ h.2 ∙ ap ok (append_assoc front c (concat chunks)))
