-- ===== src/Address/Order.antt =====
-- The comparisons of addresses.
use koho.Prelude.{
  ℕ, ◌≤◌, ◌≡◌, refl, ap, ◌⊎◌, inr, ◌↔◌, true, false, List, [], ◌∷◌, arith, length, length-take,
  take, take_all,
}
use koho.Address.{
  Address, Memcmp, equal, less, greater, memcmp, is_equal, is_less, address_eq, address_lt,
  sizeof_raw,
}

-- An address as the constructors leave it.
pub record IsValid (a : Address) : Type 0 where
  pub raw_size : length a.raw ≡ sizeof_raw
  pub fits : a.size ≤ sizeof_raw

memcmp_refl : (xs : List ℕ) → memcmp xs xs ≡ equal
unfolding memcmp
memcmp_refl [] = refl
memcmp_refl (x ∷ xs) = ground (arith, memcmp_refl xs)

eq_of_memcmp : (xs ys : List ℕ) → length xs ≡ length ys → memcmp xs ys ≡ equal → xs ≡ ys
unfolding memcmp
eq_of_memcmp [] [] h e = refl
eq_of_memcmp [] (y ∷ ys) h e = absurd (omega arith)
eq_of_memcmp (x ∷ xs) [] h e = absurd (omega arith)
eq_of_memcmp (x ∷ xs) (y ∷ ys) h e = ground (arith, eq_of_memcmp xs ys (omega arith))

memcmp_trans :
    (xs ys zs : List ℕ)
    → length xs ≡ length ys
    → memcmp xs ys ≡ less
    → memcmp ys zs ≡ less
    → memcmp xs zs ≡ less
unfolding memcmp
memcmp_trans [] ys zs h e k = cc
memcmp_trans (x ∷ xs) [] zs h e k = cc
memcmp_trans (x ∷ xs) (y ∷ ys) [] h e k = cc
memcmp_trans (x ∷ xs) (y ∷ ys) (z ∷ zs) h e k =
    ground (arith, memcmp_trans xs ys zs (omega arith), eq_of_memcmp xs ys (omega arith))

memcmp_total :
    (xs ys : List ℕ)
    → length xs ≡ length ys
    → (memcmp xs ys ≡ less) ⊎ (memcmp ys xs ≡ less) ⊎ (xs ≡ ys)
unfolding memcmp
memcmp_total [] [] h = inr (inr refl)
memcmp_total [] (y ∷ ys) h = absurd (omega arith)
memcmp_total (x ∷ xs) [] h = absurd (omega arith)
memcmp_total (x ∷ xs) (y ∷ ys) h = ground (arith, memcmp_total xs ys (omega arith))

is_less-less : (m : Memcmp) → is_less m ≡ true → m ≡ less
unfolding is_less
is_less-less equal h = cc
is_less-less less h = refl
is_less-less greater h = cc

-- On addresses as the constructors make them, `<` is transitive.
pub address_lt_trans :
    (a b c : Address)
    → IsValid a
    → IsValid b
    → IsValid c
    → address_lt a b ≡ true
    → address_lt b c ≡ true
    → address_lt a c ≡ true
unfolding address_lt
address_lt_trans a b c va vb vc h k =
    let h' : is_less (memcmp a.raw b.raw) ≡ true =
      rw (take_all sizeof_raw a.raw (omega arith), take_all sizeof_raw b.raw (omega arith)) at h in
    let k' : is_less (memcmp b.raw c.raw) ≡ true =
      rw (take_all sizeof_raw b.raw (omega arith), take_all sizeof_raw c.raw (omega arith)) at k in
    rw (take_all sizeof_raw a.raw (omega arith), take_all sizeof_raw c.raw (omega arith))
      (ap is_less
        (memcmp_trans a.raw b.raw c.raw (omega arith) (is_less-less _ h') (is_less-less _ k')))

-- On addresses as the constructors make them, no address is below itself, and `<` tells any two
-- different unions apart.
pub address_lt_total :
    (a b : Address)
    → IsValid a
    → IsValid b
    → (address_lt a a ≡ false)
      × ((address_lt a b ≡ true) ⊎ (address_lt b a ≡ true) ⊎ (a.raw ≡ b.raw))
unfolding address_lt
address_lt_total a b va vb =
    rw (take_all sizeof_raw a.raw (omega arith), take_all sizeof_raw b.raw (omega arith))
      (rw (memcmp_refl a.raw) refl, ground (arith, memcmp_total a.raw b.raw (omega arith)))

-- On addresses as the constructors make them, `==` holds exactly if the bytes that the left address
-- uses are the same in both.
pub address_eq_iff :
    (a b : Address)
    → IsValid a
    → IsValid b
    → (address_eq a b ≡ true) ↔ (take a.size a.raw ≡ take a.size b.raw)
unfolding address_eq
address_eq_iff a b va vb = (to, from)
  where
    lengths : length (take a.size a.raw) ≡ length (take a.size b.raw)
    lengths = omega (arith, length-take a.size a.raw, length-take a.size b.raw)

    to :
        is_equal (memcmp (take a.size a.raw) (take a.size b.raw)) ≡ true
        → take a.size a.raw ≡ take a.size b.raw
    to e = eq_of_memcmp _ _ lengths (ground arith)

    itself : is_equal (memcmp (take a.size a.raw) (take a.size a.raw)) ≡ true
    itself = rw (memcmp_refl (take a.size a.raw))

    from :
        take a.size a.raw ≡ take a.size b.raw
        → is_equal (memcmp (take a.size a.raw) (take a.size b.raw)) ≡ true
    from e = rw (← e) itself
