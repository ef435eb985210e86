-- ===== src/Prelude/Maps.antt =====
-- std::map as an association list without double keys.
use Prim.Native.Nat.{ℕ}
use mathlib.Core.Path.{◌≡◌, refl}
use mathlib.Core.Logic.{◌≢◌, ◌⊎◌}
use mathlib.Core.Bool.{Bool, true, false}
use mathlib.Core.Option.{Option, none, some}
use mathlib.Core.List.{List, [], ◌∷◌}
use native.Mathlib.Omega.{arith}
use koho.Prelude.Tests.{◌==◌, if◌then◌else◌}

module _ {ℓ} {V : Type ℓ} where
  -- `find`
  unfoldable pub lookup : ℕ → List (ℕ × V) → Option V
  lookup key [] = none
  lookup key ((other, v) ∷ m) = if other == key then some v else lookup key m

  -- `m[ k ] = v`; `emplace` where `k` is not there yet
  unfoldable pub insert : ℕ → V → List (ℕ × V) → List (ℕ × V)
  insert key v [] = (key, v) ∷ []
  insert key v ((other, old) ∷ m) =
      if other == key then (key, v) ∷ m else (other, old) ∷ insert key v m

  -- `erase`
  unfoldable pub erase : ℕ → List (ℕ × V) → List (ℕ × V)
  erase key [] = []
  erase key ((other, old) ∷ m) =
      let rest = erase key m in if other == key then rest else (other, old) ∷ rest

  abbrev pub is_some : Option V → Bool
  is_some none = false
  is_some (some v) = true

  -- `count`, as a test
  abbrev pub has_key : ℕ → List (ℕ × V) → Bool
  has_key key m = is_some (lookup key m)

module _ {ℓ} {V : Type ℓ} where
  pub lookup-insert :
      (key other : ℕ) (v : V) (m : List (ℕ × V))
      → lookup other (insert key v m) ≡ (if key == other then some v else lookup other m)
  unfolding lookup insert
  lookup-insert key other v [] = refl
  lookup-insert key other v ((i, old) ∷ m) = ground (arith, lookup-insert key other v m)

  pub lookup-erase :
      (key other : ℕ) (m : List (ℕ × V))
      → lookup other (erase key m) ≡ (if key == other then none else lookup other m)
  unfolding lookup erase
  lookup-erase key other [] = ground arith
  lookup-erase key other ((i, old) ∷ m) = ground (arith, lookup-erase key other m)

  pub lookup-insert_self :
      (key : ℕ) (v : V) (m : List (ℕ × V)) → lookup key (insert key v m) ≡ some v
  lookup-insert_self key v m = ground (arith, lookup-insert key key v m)

  pub lookup-erase_self : (key : ℕ) (m : List (ℕ × V)) → lookup key (erase key m) ≡ none
  lookup-erase_self key m = ground (arith, lookup-erase key key m)

  pub erase-insert : (key : ℕ) (v : V) (m : List (ℕ × V)) → erase key (insert key v m) ≡ erase key m
  unfolding erase insert
  erase-insert key v [] = ground arith
  erase-insert key v ((other, old) ∷ m) = ground (arith, erase-insert key v m)

  pub erase_absent : (key : ℕ) (m : List (ℕ × V)) → lookup key m ≡ none → erase key m ≡ m
  unfolding lookup erase
  erase_absent key [] h = refl
  erase_absent key ((other, old) ∷ m) h = ground (arith, erase_absent key m)

  pub lookup_of_erase :
      (key other : ℕ) (v : V) (m : List (ℕ × V))
      → lookup other (erase key m) ≡ some v
      → (key ≢ other) × (lookup other m ≡ some v)
  lookup_of_erase key other v m h = ground (arith, lookup-erase key other m)

module _ {V : Type 0} where
  -- the two cases of a key that is found after an insertion
  pub lookup_of_insert :
      (key other : ℕ) (v old : V) (m : List (ℕ × V))
      → lookup other (insert key v m) ≡ some old
      → ((key ≡ other) × (v ≡ old)) ⊎ ((key ≢ other) × (lookup other m ≡ some old))
  lookup_of_insert key other v old m h = ground (arith, lookup-insert key other v m)
