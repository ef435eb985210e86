-- ===== src/Text.antt =====
-- What the program uses of the C library's texts: find, to_string, strtol and atoi, and its own
-- wrapper src/util/ezio.cc. A text is the list of its bytes.
pub mod Decimal
use Prim.Native.Char.{code}
use koho.Prelude.{
  ℕ, zero, suc, ◌+◌, ◌-◌, ◌*◌, ◌/◌, ◌%◌, ◌^◌, ◌≤◌, ◌<◌, String, Bool, true, false, ◌&&◌, ◌||◌, not,
  Option, none, some, List, [], ◌∷◌, ◌++◌, ltb, leb, ◌==◌, if◌then◌else◌, is_empty, Outcome, ok,
  throw_if, runtime_error, runtime_text, unix_error, ◌>>=◌, ◌>>◌,
}

-- the bytes of an ASCII literal
abbrev pub bytes : String → List ℕ
bytes String.[] = []
bytes (String.◌∷◌ c s) = code c ∷ bytes s

-- std::string's operator==
abbrev pub same_text : List ℕ → List ℕ → Bool
same_text [] [] = true
same_text [] (y ∷ ys) = false
same_text (x ∷ xs) [] = false
same_text (x ∷ xs) (y ∷ ys) = let rest = same_text xs ys in if x == y then rest else false

-- `find( c )`; `none` is npos
unfoldable pub find : ℕ → List ℕ → Option ℕ
find c [] = none
find c (x ∷ xs) = if x == c then some 0 else next (find c xs)
  where
    next : Option ℕ → Option ℕ
    next none = none
    next (some n) = some (suc n)

abbrev pub starts_with : List ℕ → List ℕ → Bool
starts_with [] text = true
starts_with (x ∷ xs) [] = false
starts_with (x ∷ xs) (y ∷ ys) = let rest = starts_with xs ys in if x == y then rest else false

-- `find( text )`; `none` is npos
unfoldable pub find_text : List ℕ → List ℕ → Option ℕ
find_text needle [] = if is_empty needle then some 0 else none
find_text needle (x ∷ xs) =
    if starts_with needle (x ∷ xs) then some 0 else next (find_text needle xs)
  where
    next : Option ℕ → Option ℕ
    next none = none
    next (some n) = some (suc n)

-- the decimal digits of a number, at most `fuel` of them
unfoldable pub digits : ℕ → ℕ → List ℕ
digits zero n = []
digits (suc fuel) n =
    let rest = digits fuel (n / 10) in
    if ltb n 10 then (b'0' + n) ∷ [] else rest ++ (b'0' + n % 10) ∷ []

-- `std::to_string` of an integer below 2 ^ 64, which has at most 20 digits
unfoldable pub to_string : ℕ → List ℕ
unfolding digits
to_string n = digits 20 n

abbrev pub is_space : ℕ → Bool
is_space b = b == 32 || (leb 9 b && leb b 13)

unfoldable pub skip_spaces : List ℕ → List ℕ
skip_spaces [] = []
skip_spaces (x ∷ xs) = if is_space x then skip_spaces xs else x ∷ xs

-- what a byte counts for as a digit, 36 if it is none
abbrev pub digit_value : ℕ → ℕ
digit_value b =
    if leb b'0' b && leb b b'9'
    then b - b'0'
    else if leb b'a' b && leb b b'z'
    then b - b'a' + 10
    else if leb b'A' b && leb b b'Z'
    then b - b'A' + 10
    else 36

-- the digits at the front, as a number, and what follows them
unfoldable pub read_digits : ℕ → ℕ → List ℕ → ℕ × List ℕ
read_digits base acc [] = (acc, [])
read_digits base acc (x ∷ xs) =
    let rest = read_digits base (acc * base + digit_value x) xs in
    if ltb (digit_value x) base then rest else (acc, x ∷ xs)

pub record Number : Type 0 where
  pub negative : Bool
  pub magnitude : ℕ
  pub rest : List ℕ

abbrev starts_with_digit : ℕ → List ℕ → Bool
starts_with_digit base [] = false
starts_with_digit base (x ∷ xs) = ltb (digit_value x) base

-- an optional "0x" before hexadecimal digits
skip_prefix : ℕ → List ℕ → List ℕ
skip_prefix base [] = []
skip_prefix base (z ∷ []) = z ∷ []
skip_prefix base (z ∷ x ∷ xs) =
    if base == 16 && z == b'0' && (x == b'x' || x == b'X') && starts_with_digit base xs
    then xs
    else z ∷ x ∷ xs

-- `whole` is the text from its start, which is where strtol stops if it finds no digit.
read_magnitude : ℕ → List ℕ → Bool → List ℕ → Number
unfolding skip_prefix read_digits
read_magnitude base whole negative text =
    if starts_with_digit base text
    then (let (n, rest) = read_digits base 0 (skip_prefix base text) in
        record { negative = negative; magnitude = n; rest = rest })
    else record { negative = false; magnitude = 0; rest = whole }

read_sign : ℕ → List ℕ → List ℕ → Number
unfolding read_magnitude
read_sign base whole [] = read_magnitude base whole false []
read_sign base whole (x ∷ xs) =
    if x == b'-'
    then read_magnitude base whole true xs
    else read_magnitude base whole false (if x == b'+' then xs else x ∷ xs)

-- strtol before it limits the value to a long int
unfoldable pub strtol : ℕ → List ℕ → Number
unfolding read_sign skip_spaces
strtol base text = read_sign base text (skip_spaces text)

abbrev pub out_of_long : Number → Bool
out_of_long n = if n.negative then ltb (2 ^ 63) n.magnitude else leb (2 ^ 63) n.magnitude

-- a long int as its bit pattern below 2 ^ 64
abbrev pub long_of : Number → ℕ
long_of n = if n.negative then (2 ^ 64 - n.magnitude) % 2 ^ 64 else n.magnitude

-- ezio.cc
unfoldable pub myatoi : List ℕ → ℕ → Outcome ℕ
unfolding strtol
myatoi str base = do
  throw_if (is_empty str) (runtime_error "Invalid integer string: empty")
  throw_if (out_of_long (strtol base str)) (unix_error "strtol")
  throw_if (not (is_empty (strtol base str).rest)) (runtime_text (bytes "Invalid integer: " ++ str))
  ok (long_of (strtol base str))

-- `uint16_t( atoi( str ) )`, at a value that an int can hold
unfoldable pub atoi_uint16 : List ℕ → ℕ
unfolding strtol
atoi_uint16 str = long_of (strtol 10 str) % 2 ^ 16
