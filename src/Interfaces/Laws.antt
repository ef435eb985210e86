-- ===== src/Interfaces/Laws.antt =====
-- The search for an address that is free.
use koho.Prelude.{
  sym, ap, ◌∙◌, ℕ, zero, suc, ◌+◌, ◌-◌, ◌≤◌, ◌<◌, ◌≡◌, ◌≢◌, refl, ◌⊎◌, inl, inr, Bool, true, false,
  List, [], ◌∷◌, arith, ltb, ◌==◌, All, Bool-cases, Outcome, ok, thrown, runtime_error, subst,
}
use koho.Address.{Address, Resolver, ip, ip_port, cgnat}
use koho.Text.{same_text}
use koho.Util.Laws.{same_text-eq, same_text_refl}
use koho.Interfaces.{
  address_in_use, found, search, first_unassigned_address, two_unassigned_addresses, add_address,
}

-- The resolver knows the pool of addresses 100.64.0.n without a port, which are different, and can print
-- what is in use.
pub record Knows (names : Resolver) (pool : ℕ → Address) (used : List Address) : Type 0 where
  pub candidate : (n : ℕ) → n ≤ 255 → cgnat names n ≡ ok (pool n)
  pub distinct : (m n : ℕ) → m < n → n ≤ 255 → pool m ≢ pool n
  pub host : ℕ → List ℕ
  pub printed : (n : ℕ) → ip_port names (pool n) ≡ ok (host n, 0)
  pub others : All (λ x. (text : List ℕ) × (ip names x ≡ ok text)) used

-- The host of an address is that of none, or of one, of those in use.
abbrev pub IsFree : Resolver → List Address → Address → Type 0
IsFree names used a =
    (host : List ℕ) × (ip names a ≡ ok host)
    × All (λ x. (text : List ℕ) × (ip names x ≡ ok text) × (host ≢ text)) used

abbrev pub HasHost : Resolver → List ℕ → List Address → Type 0
HasHost names host [] = ⊥
HasHost names host (x ∷ used) = (ip names x ≡ ok host) ⊎ HasHost names host used

abbrev pub IsTaken : Resolver → List Address → Address → Type 0
IsTaken names used a = (host : List ℕ) × (ip names a ≡ ok host) × HasHost names host used

abbrev Judged : Resolver → List Address → Address → Bool → Type 0
Judged names used a true = IsTaken names used a
Judged names used a false = IsFree names used a

-- Every candidate from one octet to the one before another is in use.
pub record InUse (names : Resolver) (pool : ℕ → Address) (used : List Address) (first last : ℕ)
    : Type 0 where
  pub taken : (n : ℕ) → first ≤ n → n < last → IsTaken names used (pool n)

-- How a search from an octet ends: with the first candidate that is free, or with an exception if none
-- is.
abbrev pub Searched : Resolver → (ℕ → Address) → List Address → ℕ → Outcome (Address × ℕ) → Type 0
Searched names pool used octet run =
    ((n : ℕ) × (octet ≤ n)
      × (n ≤ 255)
      × (run ≡ ok (pool n, n))
      × IsFree names used (pool n)
      × InUse names pool used octet n)
    ⊎ ((run ≡ thrown (runtime_error "Interfaces: could not find free interface address"))
        × InUse names pool used octet 256)

same_host : {o : Outcome (List ℕ)} {a b : List ℕ} → o ≡ ok a → o ≡ ok b → a ≡ b
same_host e f = cc (sym e ∙ f)

different_texts : (xs ys : List ℕ) → same_text xs ys ≡ false → xs ≢ ys
different_texts xs ys other same = cc (ap (same_text xs) same, same_text_refl xs, other)

address_in_use_total :
    (names : Resolver) (addr : Address) (host : List ℕ) (used : List Address)
    → ip names addr ≡ ok host
    → All (λ x. (t : List ℕ) × (ip names x ≡ ok t)) used
    → (b : Bool) × (address_in_use names used addr ≡ ok b) × Judged names used addr b
unfolding address_in_use
address_in_use_total names addr host [] e h = (false, refl, (host, e, tt))
address_in_use_total names addr host (x ∷ used) e ((t, printed), h) =
    elim (Bool-cases (same_text host t)) [
      | inl same ↦ (
        true,
        rw (e, printed, same) refl,
        (host, e, inl (printed ∙ ap ok (sym (same_text-eq host t same)))),
      )
      | inr other ↦
          let (b, rest, judged) = address_in_use_total names addr host used e h in
          (
            b,
            rw (e, printed, other, rest) refl,
            further b t printed (different_texts host t other) judged,
          )
    ]
  where
    further :
        (b : Bool) (t : List ℕ)
        → ip names x ≡ ok t
        → host ≢ t
        → Judged names used addr b
        → Judged names (x ∷ used) addr b
    further true t printed other (own, named, shared) = (own, named, inr shared)
    further false t printed other (own, named, free) =
        (own, named, ((t, printed, λ same. other (same_host e named ∙ same)), free))

module _ (names : Resolver) (pool : ℕ → Address) (used : List Address)
    (knows : Knows names pool used) where
  ip_printed : (n : ℕ) → ip names (pool n) ≡ ok (knows.host n)
  unfolding ip
  ip_printed n = rw (knows.printed n)

  nothing_below : (octet : ℕ) → InUse names pool used octet octet
  nothing_below octet = record { taken = λ n l u. absurd (omega arith) }

  nothing_above : (octet : ℕ) → 255 < octet → InUse names pool used octet 256
  nothing_above octet h = record { taken = λ n l u. absurd (omega arith) }

  one_more :
      (octet last : ℕ)
      → IsTaken names used (pool octet)
      → InUse names pool used (octet + 1) last
      → InUse names pool used octet last
  one_more octet last here above = record { taken = taken }
    where
      at :
          (n : ℕ)
          → octet ≤ n
          → n < last
          → (b : Bool) → (octet == n) ≡ b
          → IsTaken names used (pool n)
      at n l u true e = subst (λ k. IsTaken names used (pool k)) (ground arith) here
      at n l u false e = above.taken n (ground arith) u

      taken : (n : ℕ) → octet ≤ n → n < last → IsTaken names used (pool n)
      taken n l u = at n l u (octet == n) refl

  search_lem :
      (fuel octet : ℕ)
      → 0 < fuel
      → 256 < octet + fuel
      → Searched names pool used octet (search names fuel used octet)
  unfolding search found
  search_lem zero octet some_fuel h = absurd (omega arith)
  search_lem (suc fuel) octet some_fuel h = elim (Bool-cases (ltb 255 octet)) [
    | inl beyond ↦ inr (rw beyond, nothing_above octet (ground arith))
    | inr within ↦
        let (b, used_or_not, judged) =
          address_in_use_total names (pool octet) (knows.host octet) used (ip_printed octet)
            knows.others in
        decided b used_or_not judged within
          (search_lem fuel (octet + 1) (ground arith) (omega arith))
  ]
    where
      decided :
          (b : Bool)
          → address_in_use names used (pool octet) ≡ ok b
          → Judged names used (pool octet) b
          → ltb 255 octet ≡ false
          → Searched names pool used (octet + 1) (search names fuel used (octet + 1))
          → Searched names pool used octet (search names (suc fuel) used octet)
      decided false free judged within later = inl (
        octet,
        omega arith,
        ground arith,
        rw (within, knows.candidate octet (ground arith), free, knows.printed octet),
        judged,
        nothing_below octet,
      )
      decided true taken judged within (inl (n, l, u, run, free, below)) = inl (
        n,
        omega arith,
        u,
        rw (within, knows.candidate octet (ground arith), taken) run,
        free,
        one_more octet n judged below,
      )
      decided true taken judged within (inr (run, all)) = inr (
        rw (within, knows.candidate octet (ground arith), taken) run,
        one_more octet 256 judged all,
      )

  -- When the resolver knows the pool and can print what is in use, the search ends from every
  -- octet: with the first candidate from there to 255 whose host is that of no address in use, and
  -- its octet, or, if there is none, with an exception.
  pub first_unassigned_address_lem :
      (octet : ℕ) → Searched names pool used octet (first_unassigned_address names used octet)
  unfolding first_unassigned_address
  first_unassigned_address_lem octet =
      search_lem (suc (256 - octet)) octet (omega arith) (omega arith)

-- No two candidates are free: all of them are in use, or all but one.
pub data TooFew (names : Resolver) (pool : ℕ → Address) (used : List Address) : Type 0 where
  none_free : InUse names pool used 1 256 → TooFew names pool used
  one_free :
      (m : ℕ)
      → IsFree names used (pool m)
      → InUse names pool used 1 m
      → InUse names pool used (m + 1) 256
      → TooFew names pool used

-- Two addresses that are asked for at once, when the resolver knows the pool, whose addresses are
-- different, and can print what is in use: they are different, they are the first two candidates
-- between 1 and 255, in order, whose host is not that of an address in use or of the address to avoid;
-- or no two candidates are free, and the call throws.
pub two_unassigned_addresses_lem :
    (names : Resolver) (pool : ℕ → Address) (interfaces : List Address) (avoid : Address)
    → Knows names pool (add_address avoid interfaces)
    → let used = add_address avoid interfaces in
      let run = two_unassigned_addresses names interfaces avoid in
      ((m : ℕ) × (n : ℕ) × (1 ≤ m)
        × (m < n)
        × (n ≤ 255)
        × (run ≡ ok (pool m, pool n))
        × (pool m ≢ pool n)
        × IsFree names used (pool m)
        × IsFree names used (pool n)
        × InUse names pool used 1 m
        × InUse names pool used (m + 1) n)
      ⊎ ((run ≡ thrown (runtime_error "Interfaces: could not find free interface address"))
          × TooFew names pool used)
unfolding two_unassigned_addresses
two_unassigned_addresses_lem names pool interfaces avoid knows =
    elim (first_unassigned_address_lem names pool (add_address avoid interfaces) knows 1) [
      | inr (no_first, all) ↦ inr (rw no_first refl, none_free all)
      | inl (m, low, high, first, free, below) ↦
          elim (first_unassigned_address_lem names pool (add_address avoid interfaces) knows
            (m + 1)) [
              | inr (no_second, others) ↦
                  inr (rw (first, no_second) refl, one_free m free below others)
              | inl (n, above, top, second, free', between) ↦ inl (
                m,
                n,
                low,
                omega arith,
                top,
                rw (first, second) refl,
                knows.distinct m n (omega arith) top,
                free,
                free',
                below,
                between,
              )
            ]
    ]
