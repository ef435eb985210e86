-- ===== src/Packet.antt =====
-- src/tcp_splitter/split_tcp_packet.{hh,cc}: the datagrams of the TCP splitter. A std::string is the
-- list of its bytes.
pub mod Words
pub mod Laws
use koho.Prelude.{
  ℕ, zero, suc, ◌+◌, ◌*◌, ◌/◌, ◌%◌, Bool, not, List, [], ◌∷◌, ◌++◌, ltb, ◌==◌, if◌then◌else◌,
  length, take, drop, Outcome, ok, throw_from, ◌>>=◌,
}

-- `struct Header`, with its `sizeof`: a bool, seven bytes of padding, a uint64_t
pub record Header : Type 0 where
  pub new_connection : Bool
  pub uid : ℕ

abbrev pub size_of_header : ℕ
size_of_header = 16

pub record SplitTcpPacket : Type 0 where
  pub header : Header
  pub body : List ℕ

-- the lowest `k` digits to base 256, the highest first, as `htobe64` lays them out in memory
unfoldable pub to_big_endian : ℕ → ℕ → List ℕ
to_big_endian zero n = []
to_big_endian (suc k) n = to_big_endian k (n / 256) ++ (n % 256) ∷ []

-- `be64toh` of the bytes in memory
unfoldable pub from_big_endian : ℕ → List ℕ → ℕ
from_big_endian acc [] = acc
from_big_endian acc (b ∷ bs) = from_big_endian (acc * 256 + b) bs

unfoldable pub get_header_field : ℕ → List ℕ → Outcome ℕ
get_header_field n str =
    if ltb (length str) ((n + 1) * 8)
    then throw_from n "message too small to parse field "
    else ok (from_big_endian 0 (take 8 (drop (n * 8) str)))

unfoldable pub put_header_field : ℕ → List ℕ
put_header_field n = to_big_endian 8 n

-- a bool as an integer, and an integer as a bool
abbrev pub bool_to_uint64 : Bool → ℕ
bool_to_uint64 b = if b then 1 else 0

abbrev pub uint64_to_bool : ℕ → Bool
uint64_to_bool n = not (n == 0)

unfoldable pub parse_header : List ℕ → Outcome Header
unfolding get_header_field
parse_header str = do
  first ← get_header_field 0 str
  second ← get_header_field 1 str
  ok (record { new_connection = uint64_to_bool first; uid = second })

unfoldable pub header_to_string : Header → List ℕ
unfolding put_header_field
header_to_string h = put_header_field (bool_to_uint64 h.new_connection) ++ put_header_field h.uid

unfoldable pub to_string : SplitTcpPacket → List ℕ
unfolding header_to_string
to_string p = header_to_string p.header ++ p.body

unfoldable pub parse : List ℕ → Outcome SplitTcpPacket
unfolding parse_header
parse str = do h ← parse_header str; ok (record { header = h; body = drop size_of_header str })
