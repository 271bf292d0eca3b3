-- ===== src/AuditChain/Tests.antt =====
-- Runs of src/modules/audit/audit.repository.ts, with arithmetic in place of sha256.
use mathlib.Core.List.{Perm}
use backend_foundation.Prelude.{
  ℕ, ◌+◌, ◌*◌, ◌%◌, ◌≡◌, refl, Option, none, some, List, [], ◌∷◌, arith, length, ap,
}
use backend_foundation.AuditChain.{
  Canonical, base, with_details, Digest, AuditInput, AuditLog, valid, canonicalize, compute_hash,
  ChainCheck, walk, find_fork, by_previous, verify_chain_integrity,
}
use backend_foundation.AuditChain.Verification.{Write}
use backend_foundation.AuditChain.Distinct.{Chain}
use backend_foundation.AuditChain.Soundness.{hashed, verify_sound}
use backend_foundation.AuditChain.Termination.{verify_terminates}

abbrev text : Canonical → ℕ
text (base id user action entity entity_id ip agent at) = action
text (with_details b d) = text b + d

abbrev mix : ℕ → Option ℕ → ℕ
mix c none = c % 2
mix c (some p) = 2 * (p + 1) + c % 2

abbrev toy : Digest
toy = record { stringify = text; sha256 = mix }

mix-free : (c d : ℕ) (p q : Option ℕ) → mix c p ≡ mix d q → p ≡ q
mix-free c d none none e = refl
mix-free c d none (some q) e = absurd (omega arith)
mix-free c d (some p) none e = absurd (omega arith)
mix-free c d (some p) (some q) e = ap some (omega arith)

abbrev did : ℕ → AuditInput
did action = record {
  user_id = some 1;
  action = action;
  entity = 2;
  entity_id = none;
  ip_address = none;
  user_agent = none;
  details = none;
}

abbrev writes : List Write
writes = (1, 10, did 4) ∷ (2, 20, did 5) ∷ []

abbrev first : AuditLog
first = record { id = 1; content = did 4; created_at = 10; hash = some 0; previous_hash = none }

abbrev second : AuditLog
second = record { id = 2; content = did 5; created_at = 20; hash = some 3; previous_hash = some 0 }

swapped_valid : verify_chain_integrity toy 2 (second ∷ first ∷ []) ≡ some valid
unfolding verify_chain_integrity walk find_fork by_previous compute_hash canonicalize
swapped_valid = refl

verify_sound_example :
    (ws : List AuditLog) × Chain toy none ws × Perm ws (hashed (second ∷ first ∷ []))
verify_sound_example = verify_sound toy mix-free 2 (second ∷ first ∷ []) swapped_valid

abbrev tampered : List AuditLog
tampered = record second { previous_hash = some 3 } ∷ first ∷ []

verify_terminates_example :
    (c : ChainCheck) × (verify_chain_integrity toy (length (hashed tampered)) tampered ≡ some c)
verify_terminates_example = verify_terminates toy mix-free tampered
