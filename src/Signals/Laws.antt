-- ===== src/Signals/Laws.antt =====
-- What a mask of given signals holds, and when two masks are taken for equal.
use koho.Prelude.{
  ℕ, zero, suc, ◌+◌, ◌≤◌, ◌<◌, ◌≡◌, refl, ap, subst, ◌↔◌, inl, inr, true, Option, none, some, arith,
  ◌==◌, Bool-cases,
}
use koho.Signals.{Sigset, same_answer, agree, mask_eq, sigrtmax}

same_answer-eq : (a b : Option ℕ) → same_answer a b ≡ true → a ≡ b
same_answer-eq none none h = refl
same_answer-eq none (some n) h = cc h
same_answer-eq (some m) none h = cc h
same_answer-eq (some m) (some n) h = ap some (ground arith)

same_answer_refl : (a : Option ℕ) → same_answer a a ≡ true
same_answer_refl none = refl
same_answer_refl (some n) = ground arith

module _ {G : Type 0} (sigset : Sigset G) where
  -- Two masks give the same answer for every signal from `low` on, below `high`.
  abbrev pub Agree : ℕ → ℕ → G → G → Type 0
  Agree low high a b =
      (n : ℕ) → low ≤ n → n < high → sigset.sigismember a n ≡ sigset.sigismember b n

  agree_to :
      (left low : ℕ) (a b : G) → agree sigset left low a b ≡ true → Agree low (low + left) a b
  unfolding agree
  agree_to zero low a b h n above below = absurd (omega arith)
  agree_to (suc left) low a b h n above below =
      elim (Bool-cases (same_answer (sigset.sigismember a low) (sigset.sigismember b low))) [
        | inr other ↦ cc (rw other at h)
        | inl same ↦ elim (Bool-cases (n == low)) [
          | inl here ↦
              subst (λ m. sigset.sigismember a m ≡ sigset.sigismember b m) (ground arith)
                (same_answer-eq (sigset.sigismember a low) (sigset.sigismember b low) same)
          | inr there ↦ agree_to left (suc low) a b (rw same at h) n (ground arith) (omega arith)
        ]
      ]

  agree_from :
      (left low : ℕ) (a b : G) → Agree low (low + left) a b → agree sigset left low a b ≡ true
  unfolding agree
  agree_from zero low a b h = refl
  agree_from (suc left) low a b h =
      let first =
        subst (λ o. same_answer (sigset.sigismember a low) o ≡ true)
          (h low (omega arith) (omega arith)) (same_answer_refl (sigset.sigismember a low)) in
      rw first (agree_from left (suc low) a b (λ n above below. h n (omega arith) (omega arith)))

  -- Two masks are taken for equal just if they give the same answer for every number below SIGRTMAX;
  -- SIGRTMAX itself is not asked for.
  pub mask_eq_iff : (a b : G) → (mask_eq sigset a b ≡ true) ↔ Agree 0 sigrtmax a b
  unfolding mask_eq
  mask_eq_iff a b = (agree_to sigrtmax 0 a b, agree_from sigrtmax 0 a b)
