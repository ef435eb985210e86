-- ===== src/Text/Decimal.antt =====
-- A number that is printed in decimal is read back, by `myatoi` and by `atoi`.
use koho.Prelude.{
  ℕ, zero, suc, ◌+◌, ◌-◌, ◌*◌, ◌/◌, ◌%◌, ◌^◌, ◌≤◌, ◌<◌, ◌≡◌, refl, subst, false, List, [], ◌∷◌,
  ◌++◌, arith, Bool-cases, inl, inr, ltb, leb, All, ok, is_empty,
}
use koho.Text.{digits, to_string, digit_value, read_digits, strtol, myatoi, atoi_uint16}

abbrev pub IsDigit : ℕ → Type 0
IsDigit b = (b'0' ≤ b) × (b ≤ b'9')

digit_value_lem : (b : ℕ) → IsDigit b → digit_value b ≡ b - b'0'
digit_value_lem b h = ground arith

All-append_one : (xs : List ℕ) (b : ℕ) → All IsDigit xs → IsDigit b → All IsDigit (xs ++ b ∷ [])
All-append_one [] b h hb = (hb, tt)
All-append_one (x ∷ xs) b h hb = (h.0, All-append_one xs b h.1 hb)

read_digits-append :
    (acc b : ℕ) (xs : List ℕ)
    → All IsDigit xs
    → IsDigit b
    → (n : ℕ) → read_digits 10 acc xs ≡ (n, [])
    → read_digits 10 acc (xs ++ b ∷ []) ≡ (n * 10 + (b - b'0'), [])
unfolding read_digits
read_digits-append acc b [] h hb n e = ground (arith, digit_value_lem b)
read_digits-append acc b (x ∷ xs) h hb n e =
    ground (arith, digit_value_lem x, read_digits-append (acc * 10 + digit_value x) b xs h.1 hb n)

digits_lem :
    (fuel n : ℕ)
    → n < 10 ^ fuel
    → All IsDigit (digits fuel n) × (read_digits 10 0 (digits fuel n) ≡ (n, []))
unfolding digits
digits_lem zero n h = (tt, unfold read_digits in ground arith)
digits_lem (suc fuel) n h = elim (Bool-cases (ltb n 10)) [
  | inl one ↦
      rw one ((ground arith, tt), unfold read_digits in ground (arith, digit_value_lem (b'0' + n)))
  | inr more ↦
      let (are_digits, value) = digits_lem fuel (n / 10) (omega arith) in
      rw more (
        All-append_one (digits fuel (n / 10)) _ are_digits (omega arith),
        ground (
          arith,
          read_digits-append 0 (b'0' + n % 10) (digits fuel (n / 10)) are_digits (omega arith)
              (n / 10) value,
        ),
      )
]

digits_nonempty : (fuel n : ℕ) → (d : ℕ) × (ds : List ℕ) × (digits (suc fuel) n ≡ d ∷ ds)
unfolding digits
digits_nonempty fuel n = elim (Bool-cases (ltb n 10)) [
  | inl one ↦ rw one (b'0' + n, [], refl)
  | inr more ↦ rw more (front (digits fuel (n / 10)) (b'0' + n % 10))
]
  where
    front : (xs : List ℕ) (b : ℕ) → (d : ℕ) × (ds : List ℕ) × (xs ++ b ∷ [] ≡ d ∷ ds)
    front [] b = (b, [], refl)
    front (x ∷ xs) b = (x, xs ++ b ∷ [], refl)

strtol_digits :
    (x : ℕ) (xs : List ℕ)
    → IsDigit x
    → strtol 10 (x ∷ xs) ≡ (
        let (n, rest) = read_digits 10 0 (x ∷ xs) in
        record { negative = false; magnitude = n; rest = rest })
unfolding strtol
strtol_digits x [] h = ground arith
strtol_digits x (y ∷ xs) h = ground arith

-- strtol reads back what to_string wrote.
strtol-to_string :
    (n : ℕ)
    → n < 2 ^ 64
    → (strtol 10 (to_string n) ≡ record { negative = false; magnitude = n; rest = [] })
      × (is_empty (to_string n) ≡ false)
unfolding to_string
strtol-to_string n h =
    let (are_digits, value) = digits_lem 20 n (omega arith) in
    let (d, ds, e) = digits_nonempty 19 n in
    let is_digit = subst (All IsDigit) e are_digits in
    rw e (rw (strtol_digits d ds is_digit.0, ← e, value) refl, refl)

-- `myatoi` reads every number of a long int that was printed in decimal.
pub myatoi-to_string : (n : ℕ) → n < 2 ^ 63 → myatoi (to_string n) 10 ≡ ok n
unfolding myatoi
myatoi-to_string n h =
    let (read, nonempty) = strtol-to_string n (omega arith) in
    let in_range : leb (2 ^ 63) n ≡ false = ground arith in rw (nonempty, read, in_range)

-- `atoi` reads every port that was printed in decimal.
pub atoi_uint16-to_string : (n : ℕ) → n < 2 ^ 16 → atoi_uint16 (to_string n) ≡ n
unfolding atoi_uint16
atoi_uint16-to_string n h = rw (strtol-to_string n (omega arith)).0 (omega arith)
