-- ===== src/LoginAttempts/Memory.antt =====
-- Keys of the memory maps, and the count of a run of failures.
use backend_foundation.Prelude.{
  ℕ, ◌≡◌, ◌≢◌, refl, true, false, Option, List, [], ◌∷◌, arith, inl, inr, Bool-cases,
}
use backend_foundation.LoginAttempts.Defs.{
  Identifier, address, mfa, same_text, same, Tracker, Redis, record_failed_attempt,
}

same_text_refl : (s : List ℕ) → same_text s s ≡ true
same_text_refl [] = refl
same_text_refl (c ∷ s) = ground (arith, same_text_refl s)

pub same_refl : (k : Identifier) → same k k ≡ true
same_refl (address s) = same_text_refl s
same_refl (mfa n) = ground arith

same_text-eq : (s t : List ℕ) → same_text s t ≡ true → s ≡ t
same_text-eq [] [] h = refl
same_text-eq [] (d ∷ t) h = cc
same_text-eq (c ∷ s) [] h = cc
same_text-eq (c ∷ s) (d ∷ t) h = ground (arith, same_text-eq s t)

pub same-eq : (j k : Identifier) → same j k ≡ true → j ≡ k
same-eq (address s) (address t) h = cc (same_text-eq s t h)
same-eq (address s) (mfa n) h = cc
same-eq (mfa m) (address t) h = cc
same-eq (mfa m) (mfa n) h = ground arith

pub same_ne : (j k : Identifier) → j ≢ k → same j k ≡ false
same_ne j k h = elim (Bool-cases (same j k)) [ inl e ↦ absurd (h (same-eq j k e)) | inr e ↦ e ]

module _ {R : Type 0} where
  -- Failures of one identifier, in order.
  unfoldable pub failures : Option (Redis R) → Identifier → List ℕ → Tracker R → Tracker R
  failures api k [] t = t
  failures api k (now ∷ times) t = failures api k times (record_failed_attempt api now k t)
