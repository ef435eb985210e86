-- ===== src/Packet/Words.antt =====
-- Big-endian words: `to_big_endian` and `from_big_endian` undo one another.
use koho.Prelude.{
  ℕ, zero, suc, ◌+◌, ◌*◌, ◌/◌, ◌%◌, ◌^◌, ◌<◌, ◌≡◌, refl, ap, ap₂, ◌∙◌, List, [], ◌∷◌, ◌++◌, arith,
  length, length-append, All,
}
use koho.Packet.{to_big_endian, from_big_endian}

abbrev pub IsByte : ℕ → Type 0
IsByte b = b < 256

abbrev pub IsUint64 : ℕ → Type 0
IsUint64 n = n < 2 ^ 64

pub length-to_big_endian : (k n : ℕ) → length (to_big_endian k n) ≡ k
unfolding to_big_endian
length-to_big_endian zero n = refl
length-to_big_endian (suc k) n = omega (
  arith,
  length-append (to_big_endian k (n / 256)) ((n % 256) ∷ []),
  length-to_big_endian k (n / 256),
)

from_big_endian-append :
    (acc b : ℕ) (xs : List ℕ)
    → from_big_endian acc (xs ++ b ∷ []) ≡ from_big_endian acc xs * 256 + b
unfolding from_big_endian
from_big_endian-append acc b [] = refl
from_big_endian-append acc b (x ∷ xs) = from_big_endian-append (acc * 256 + x) b xs

pub from_big_endian-to_big_endian :
    (k n : ℕ) → n < 256 ^ k → from_big_endian 0 (to_big_endian k n) ≡ n
unfolding to_big_endian
from_big_endian-to_big_endian zero n h = unfold from_big_endian in omega arith
from_big_endian-to_big_endian (suc k) n h = omega (
  arith,
  from_big_endian-append 0 (n % 256) (to_big_endian k (n / 256)),
  from_big_endian-to_big_endian k (n / 256) (omega arith),
)

-- The last byte of a nonempty string.
split_last :
    (k : ℕ) (xs : List ℕ)
    → length xs ≡ suc k
    → All IsByte xs
    → (ys : List ℕ) × (b : ℕ) × (xs ≡ ys ++ b ∷ []) × (length ys ≡ k) × IsByte b × All IsByte ys
split_last k [] h bytes = absurd (omega arith)
split_last k (x ∷ []) h bytes = ([], x, refl, omega arith, bytes.0, tt)
split_last zero (x ∷ y ∷ xs) h bytes = absurd (omega arith)
split_last (suc k) (x ∷ y ∷ xs) h bytes =
    let (ys, b, e, l, is_byte, rest) = split_last k (y ∷ xs) (omega arith) bytes.1 in
    (x ∷ ys, b, ap (λ t. x ∷ t) e, omega arith, is_byte, (bytes.0, rest))

pub to_big_endian-from_big_endian :
    (k : ℕ) (xs : List ℕ)
    → length xs ≡ k
    → All IsByte xs
    → to_big_endian k (from_big_endian 0 xs) ≡ xs
unfolding to_big_endian
to_big_endian-from_big_endian zero [] h bytes = refl
to_big_endian-from_big_endian zero (x ∷ xs) h bytes = absurd (omega arith)
to_big_endian-from_big_endian (suc k) xs h bytes =
    let (ys, b, e, l, is_byte, rest) = split_last k xs h bytes in
    let value = from_big_endian 0 ys in
    rw (e, from_big_endian-append 0 b ys)
      (ap₂ (λ n d. to_big_endian k n ++ d ∷ []) (quotient value b is_byte)
          (remainder value b is_byte)
        ∙ ap (λ t. t ++ b ∷ []) (to_big_endian-from_big_endian k ys l rest))
  where
    quotient : (v b : ℕ) → IsByte b → (v * 256 + b) / 256 ≡ v
    quotient v b h = omega arith

    remainder : (v b : ℕ) → IsByte b → (v * 256 + b) % 256 ≡ b
    remainder v b h = omega arith
