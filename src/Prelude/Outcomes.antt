-- ===== src/Prelude/Outcomes.antt =====
-- How a C++ call ends: with a value, by an exception, by a failed `assert`, or in something that the
-- language leaves undefined. `running` is no end: a loop of the model ran out of fuel.
use Prim.Native.Nat.{ℕ, zero, suc}
use Prim.Native.String.{String}
use mathlib.Core.Path.{◌≡◌, refl, ap, ap₂}
use mathlib.Core.Logic.{◌⊎◌, inl, inr}
use mathlib.Core.Bool.{Bool, true, false}
use mathlib.Core.List.{List}
use mathlib.Core.Option.{Option, none, some}
use koho.Prelude.Tests.{if◌then◌else◌}

-- The classes of util/exception.hh and std::runtime_error, with what they were given; `runtime_text`
-- is a runtime_error whose text is computed.
pub data Exception : Type 0 where
  unix_error : String → Exception
  runtime_error : String → Exception
  runtime_text : List ℕ → Exception
  tagged_error : List ℕ → Exception
  out_of_range : Exception

pub data Outcome {ℓ} (A : Type ℓ) : Type ℓ where
  ok : A → Outcome A
  thrown : Exception → Outcome A
  aborted : Outcome A
  undefined : Outcome A
  running : Outcome A

infixl 5 ◌>>=◌ ◌>>◌
abbrev pub ◌>>=◌ {ℓ κ} : {A : Type ℓ} {B : Type κ} → Outcome A → (A → Outcome B) → Outcome B
ok a >>= f = f a
thrown e >>= f = thrown e
aborted >>= f = aborted
undefined >>= f = undefined
running >>= f = running

abbrev pub ◌>>◌ {ℓ} : {B : Type ℓ} → Outcome (Unit {0}) → Outcome B → Outcome B
m >> k = m >>= λ _. k

-- `assert`
abbrev pub assert : Bool → Outcome (Unit {0})
assert true = ok tt
assert false = aborted

-- `if ( test ) throw e`
abbrev pub throw_if : Bool → Exception → Outcome (Unit {0})
throw_if true e = thrown e
throw_if false e = ok tt

-- `throw runtime_error( "…" + n )`: the sum moves the pointer, so that the text lacks its first `n`
-- characters, and past its end the sum is undefined.
abbrev pub throw_from {ℓ} : {A : Type ℓ} → ℕ → String → Outcome A
throw_from zero s = thrown (runtime_error s)
throw_from (suc n) String.[] = undefined
throw_from (suc n) (String.◌∷◌ c s) = throw_from n s

-- Stateful code: what was changed before an exception stays changed.
infixl 5 ◌>>>◌
abbrev pub ◌>>>◌ : {S A B : Type 0} → Outcome A × S → (A → S → Outcome B × S) → Outcome B × S
(ok a, s) >>> f = f a s
(thrown e, s) >>> f = (thrown e, s)
(aborted, s) >>> f = (aborted, s)
(undefined, s) >>> f = (undefined, s)
(running, s) >>> f = (running, s)

abbrev pub M : Type 0 → Type 0 → Type 0
M S A = S → Outcome A × S

-- `SystemCall` of exception.hh; `none` is a negative return value.
abbrev pub system_call {ℓ} : {A : Type ℓ} → String → Option A → Outcome A
system_call attempt (some a) = ok a
system_call attempt none = thrown (unix_error attempt)

-- The same with a text that is computed.
abbrev pub system_call_text {ℓ} : {A : Type ℓ} → List ℕ → Option A → Outcome A
system_call_text attempt (some a) = ok a
system_call_text attempt none = thrown (tagged_error attempt)

-- `try { … } catch ( const exception & e ) { … }`
abbrev pub catching :
    {S A : Type 0} → Outcome A × S → (Exception → S → Outcome A × S) → Outcome A × S
catching (ok a, s) handler = (ok a, s)
catching (thrown e, s) handler = handler e s
catching (aborted, s) handler = (aborted, s)
catching (undefined, s) handler = (undefined, s)
catching (running, s) handler = (running, s)

module _ {S : Type 0} where
  abbrev pub pure : {A : Type 0} → A → M S A
  pure a s = (ok a, s)

  -- a call that leaves the state alone
  abbrev pub lift : {A : Type 0} → Outcome A → M S A
  lift r s = (r, s)

  -- `if ( test ) m`
  abbrev pub when : Bool → M S (Unit {0}) → M S (Unit {0})
  when true m = m
  when false m = pure tt

  infixl 5 ◌>>!◌
  abbrev pub ◌>>!◌ : {A B : Type 0} → M S A → (A → M S B) → M S B
  ◌>>!◌ m f s = m s >>> f

-- A sequence that returns has run its first part to the end.
pub >>>-eq-ok :
    {S A B : Type 0} (m : Outcome A × S) (f : A → M S B) {b : B} {t : S}
    → (m >>> f) ≡ (ok b, t)
    → (a : A) × (m.0 ≡ ok a) × (f a m.1 ≡ (ok b, t))
>>>-eq-ok (ok a, s) f e = (a, refl, e)
>>>-eq-ok (thrown x, s) f e = cc (ap (λ p. p.0) e)
>>>-eq-ok (aborted, s) f e = cc (ap (λ p. p.0) e)
>>>-eq-ok (undefined, s) f e = cc (ap (λ p. p.0) e)
>>>-eq-ok (running, s) f e = cc (ap (λ p. p.0) e)

pub >>>-value :
    {S A B : Type 0} (m : Outcome A × S) (f : A → M S B) {b : B}
    → (m >>> f).0 ≡ ok b
    → (a : A) × (m.0 ≡ ok a) × ((f a m.1).0 ≡ ok b)
>>>-value (ok a, s) f e = (a, refl, e)
>>>-value (thrown x, s) f e = cc e
>>>-value (aborted, s) f e = cc e
>>>-value (undefined, s) f e = cc e
>>>-value (running, s) f e = cc e

-- A sequence that throws does so in one of its parts.
pub >>>-eq-thrown :
    {S A B : Type 0} (m : Outcome A × S) (f : A → M S B) {e : Exception} {t : S}
    → (m >>> f) ≡ (thrown e, t)
    → (m ≡ (thrown e, t)) ⊎ ((a : A) × (m.0 ≡ ok a) × (f a m.1 ≡ (thrown e, t)))
>>>-eq-thrown (ok a, s) f h = inr (a, refl, h)
>>>-eq-thrown {B} (thrown x, s) f h =
    inl (ap₂ (λ y u. (thrown y, u)) (inj (ap (λ p. p.0) h)) (ap (λ p. p.1) h))
  where
    inj : {a b : Exception} → ◌≡◌ {A = Outcome B} (thrown a) (thrown b) → a ≡ b
    inj k = cc k
>>>-eq-thrown (aborted, s) f h = cc (ap (λ p. p.0) h)
>>>-eq-thrown (undefined, s) f h = cc (ap (λ p. p.0) h)
>>>-eq-thrown (running, s) f h = cc (ap (λ p. p.0) h)

-- When its first part returns, a sequence is its second part.
pub >>>-ok :
    {S A B : Type 0} (m : Outcome A × S) (f : A → M S B) {a : A} → m.0 ≡ ok a → (m >>> f) ≡ f a m.1
>>>-ok (ok b, s) f e = cc e
>>>-ok (thrown x, s) f e = cc e
>>>-ok (aborted, s) f e = cc e
>>>-ok (undefined, s) f e = cc e
>>>-ok (running, s) f e = cc e

-- When its first part throws, so does a sequence.
pub >>>-thrown :
    {S A B : Type 0} (m : Outcome A × S) (f : A → M S B) {e : Exception}
    → m.0 ≡ thrown e
    → (m >>> f) ≡ (thrown e, m.1)
>>>-thrown (ok a, s) f h = cc h
>>>-thrown (thrown x, s) f h = cc h
>>>-thrown (aborted, s) f h = cc h
>>>-thrown (undefined, s) f h = cc h
>>>-thrown (running, s) f h = cc h

-- A sequence ends with its first part, or goes on with its second.
pub >>>-cases :
    {S A B : Type 0} (m : Outcome A × S) (f : A → M S B)
    → ((r : Outcome B) × ((m >>> f) ≡ (r, m.1))) ⊎ ((a : A) × (m.0 ≡ ok a) × ((m >>> f) ≡ f a m.1))
>>>-cases (ok a, s) f = inr (a, refl, refl)
>>>-cases (thrown x, s) f = inl (thrown x, refl)
>>>-cases (aborted, s) f = inl (aborted, refl)
>>>-cases (undefined, s) f = inl (undefined, refl)
>>>-cases (running, s) f = inl (running, refl)

-- What both parts of a sequence keep, the sequence keeps, however it ends.
pub >>>-keeps {ℓ} :
    {S A B : Type 0} (P : S → Type ℓ) (m : Outcome A × S) (f : A → M S B)
    → P m.1
    → ((a : A) (s : S) → P s → P (f a s).1)
    → P (m >>> f).1
>>>-keeps P (ok a, s) f h k = k a s h
>>>-keeps P (thrown x, s) f h k = h
>>>-keeps P (aborted, s) f h k = h
>>>-keeps P (undefined, s) f h k = h
>>>-keeps P (running, s) f h k = h

pub if-keeps {ℓ} :
    {S A : Type 0} (P : S → Type ℓ) (b : Bool) (x y : Outcome A × S)
    → P x.1
    → P y.1
    → P (if b then x else y).1
if-keeps P true x y hx hy = hx
if-keeps P false x y hx hy = hy

-- A handler has nothing to do when nothing is thrown.
pub catching-ok :
    {S A : Type 0} (m : Outcome A × S) (handler : Exception → S → Outcome A × S) {a : A}
    → m.0 ≡ ok a
    → catching m handler ≡ m
catching-ok (ok b, s) handler h = refl
catching-ok (thrown e, s) handler h = cc h
catching-ok (aborted, s) handler h = refl
catching-ok (undefined, s) handler h = refl
catching-ok (running, s) handler h = refl

-- So for calls without a state.
pub >>=-eq-ok {ℓ κ} :
    {A : Type ℓ} {B : Type κ} (call : Outcome A) (next : A → Outcome B) {result : B}
    → (call >>= next) ≡ ok result
    → (x : A) × (call ≡ ok x) × (next x ≡ ok result)
>>=-eq-ok (ok a) next e = (a, refl, e)
>>=-eq-ok (thrown x) next e = cc
>>=-eq-ok aborted next e = cc
>>=-eq-ok undefined next e = cc
>>=-eq-ok running next e = cc
