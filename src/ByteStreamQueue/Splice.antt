-- ===== src/ByteStreamQueue/Splice.antt =====
-- What `memcpy` into the middle of the buffer leaves in each part of it.
use koho.Prelude.{
  ℕ, zero, suc, ◌+◌, ◌-◌, ◌≤◌, ◌≡◌, refl, ap, ◌∙◌, List, [], ◌∷◌, ◌++◌, arith, length, take, drop,
}
use koho.ByteStreamQueue.{splice}

pub length-splice : (i : ℕ) (c b : List ℕ) → length (splice i c b) ≡ length b
unfolding splice
length-splice i c [] = refl
length-splice zero [] (x ∷ b) = refl
length-splice zero (y ∷ c) (x ∷ b) = ap suc (length-splice zero c b)
length-splice (suc i) c (x ∷ b) = ap suc (length-splice i c b)

-- the part that ends with the chunk
pub take-splice :
    (i n : ℕ) (c b : List ℕ)
    → n ≡ i + length c
    → n ≤ length b
    → take n (splice i c b) ≡ take i b ++ c
unfolding splice
take-splice zero zero [] [] e h = refl
take-splice zero zero [] (x ∷ b) e h = refl
take-splice zero zero (y ∷ c) b e h = absurd (omega arith)
take-splice zero (suc n) [] b e h = absurd (omega arith)
take-splice zero (suc n) (y ∷ c) [] e h = absurd (omega arith)
take-splice zero (suc n) (y ∷ c) (x ∷ b) e h =
    ap (λ l. y ∷ l) (take-splice zero n c b (omega arith) (omega arith))
take-splice (suc i) zero c b e h = absurd (omega arith)
take-splice (suc i) (suc n) c [] e h = absurd (omega arith)
take-splice (suc i) (suc n) c (x ∷ b) e h =
    ap (λ l. x ∷ l) (take-splice i n c b (omega arith) (omega arith))

-- the part behind the chunk
pub drop-splice_after :
    (i n : ℕ) (c b : List ℕ) → i + length c ≤ n → drop n (splice i c b) ≡ drop n b
unfolding splice
drop-splice_after i n c [] h = refl
drop-splice_after zero n [] (x ∷ b) h = refl
drop-splice_after zero zero (y ∷ c) (x ∷ b) h = absurd (omega arith)
drop-splice_after zero (suc n) (y ∷ c) (x ∷ b) h = drop-splice_after zero n c b (omega arith)
drop-splice_after (suc i) zero c (x ∷ b) h = absurd (omega arith)
drop-splice_after (suc i) (suc n) c (x ∷ b) h = drop-splice_after i n c b (omega arith)

-- the part from a place before the chunk on
pub drop-splice_before :
    (i n : ℕ) (c b : List ℕ) → n ≤ i → drop n (splice i c b) ≡ splice (i - n) c (drop n b)
unfolding splice
drop-splice_before i zero c b h = ap (λ k. splice k c b) (omega arith)
drop-splice_before zero (suc n) c b h = absurd (omega arith)
drop-splice_before (suc i) (suc n) c [] h = refl
drop-splice_before (suc i) (suc n) c (x ∷ b) h =
    drop-splice_before i n c b (omega arith) ∙ ap (λ k. splice k c (drop n b)) (omega arith)
