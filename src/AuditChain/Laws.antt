-- ===== src/AuditChain/Laws.antt =====
-- What the verification of the audit log accepts, what it finds, and what it misses.
use backend_foundation.Prelude.{
  ℕ, ◌+◌, ◌≡◌, refl, ap, Option, none, some, List, [], ◌∷◌, ◌++◌, All, arith, keep, length, is_some,
  true,
}
use backend_foundation.AuditChain.{
  Digest, AuditInput, AuditLog, AuditStore, valid, create, by_previous, walk,
  verify_chain_integrity,
}
use backend_foundation.AuditChain.Distinct.{
  CollisionFree, row_hash, Chain, last_of, Distinct, Chain-Distinct,
}
use backend_foundation.AuditChain.Verification.{
  Write, create_all, create_all-IsChained, append-Chain, by_previous-none,
}
use backend_foundation.AuditChain.Walk.{find_fork-none, before-Avoids, walk-prefix}

abbrev pub empty_store : AuditStore
empty_store = record { rows = []; last_hash = none }

abbrev pub Hashed : List AuditLog → Type 0
Hashed = All (λ r. is_some r.hash ≡ true)

pub Chain-Hashed :
    (digest : Digest) (p : Option ℕ) (rs : List AuditLog) → Chain digest p rs → Hashed rs
Chain-Hashed digest p [] c = tt
Chain-Hashed digest p (r ∷ rs) c = (ground (arith, c.1), Chain-Hashed digest r.hash rs c.2)

pub keep-Hashed : (rs : List AuditLog) → Hashed rs → keep (λ r. is_some r.hash) rs ≡ rs
keep-Hashed [] h = refl
keep-Hashed (r ∷ rs) h = rw h.0 (ap (λ t. r ∷ t) (keep-Hashed rs h.1))

append-nil : (rs : List AuditLog) → rs ≡ rs ++ []
append-nil [] = refl
append-nil (r ∷ rs) = ap (λ t. r ∷ t) (append-nil rs)

-- Where no row is left out and none forks, the verification is its loop.
pub verify-walk :
    (digest : Digest) (fuel : ℕ) (rows : List AuditLog)
    → Hashed rows
    → Distinct rows
    → verify_chain_integrity digest fuel rows ≡ walk digest fuel rows (by_previous none rows) none 0
unfolding verify_chain_integrity
verify-walk digest fuel rows h d = rw (keep-Hashed rows h) (rw (find_fork-none [] rows tt d) refl)

-- No row follows the last one.
last-none :
    (digest : Digest) (rs : List AuditLog)
    → CollisionFree digest
    → Chain digest none rs
    → by_previous (last_of none rs) rs ≡ none
last-none digest rs free c = by_previous-none (last_of none rs) rs (
    before-Avoids rs ghost [] (
      Chain-Distinct digest free (rs ++ ghost ∷ [])
        (append-Chain digest none rs ghost c refl refl)))
  where
    no_content : AuditInput
    no_content = record {
      user_id = none;
      action = 0;
      entity = 0;
      entity_id = none;
      ip_address = none;
      user_agent = none;
      details = none;
    }

    bare : AuditLog
    bare = record {
      id = 0;
      content = no_content;
      created_at = 0;
      hash = none;
      previous_hash = last_of none rs;
    }

    ghost : AuditLog
    ghost = record bare { hash = some (row_hash digest bare) }

walk-done :
    (digest : Digest) (fuel : ℕ) (rows : List AuditLog) (p : Option ℕ) (v : ℕ)
    → v ≡ length rows
    → walk digest fuel rows none p v ≡ some valid
unfolding walk
walk-done digest fuel rows p v e = ground arith

Chain-verifies :
    (digest : Digest) (extra : ℕ) (rs : List AuditLog)
    → CollisionFree digest
    → Chain digest none rs
    → verify_chain_integrity digest (length rs + extra) rs ≡ some valid
Chain-verifies digest extra rs free c =
    let all_walked : length rs + 0 ≡ length rs = omega arith in
    cc (
      verify-walk digest (length rs + extra) rs (Chain-Hashed digest none rs c)
          (Chain-Distinct digest free rs c),
      walk-prefix digest rs extra rs [] [] none 0 (append-nil rs) (Chain-Distinct digest free rs c)
          c,
      last-none digest rs free c,
      walk-done digest extra rs (last_of none rs) (length rs + 0) all_walked,
    )

-- Whatever was written, one transaction after the other, the log verifies: the loop ends after as
-- many turns as there are rows, and reports the chain as valid. The hash of a row is taken to tell
-- the hash before it.
pub created_log_verifies :
    (digest : Digest) (ws : List Write) (extra : ℕ)
    → CollisionFree digest
    → verify_chain_integrity digest
        (length (create_all digest ws empty_store).rows + extra)
        (create_all digest ws empty_store).rows
      ≡ some valid
created_log_verifies digest ws extra free =
    Chain-verifies digest extra _ free
      (create_all-IsChained digest ws empty_store (record { chain = tt; last = refl })).chain

-- A table without its newest row.
unfoldable pub without_newest : List AuditLog → List AuditLog
without_newest [] = []
without_newest (r ∷ []) = []
without_newest (r ∷ s ∷ rs) = r ∷ without_newest (s ∷ rs)

without_newest-append : (rs : List AuditLog) (r : AuditLog) → without_newest (rs ++ r ∷ []) ≡ rs
unfolding without_newest
without_newest-append [] r = refl
without_newest-append (s ∷ []) r = refl
without_newest-append (s ∷ t ∷ rs) r = ap (λ x. s ∷ x) (without_newest-append (t ∷ rs) r)

-- Deleting the newest row is not found: the log that is left still verifies, although the hash of
-- the deleted row is stored as the last one.
pub delete_newest_undetected :
    (digest : Digest) (ws : List Write) (id now : ℕ) (input : AuditInput) (extra : ℕ)
    → CollisionFree digest
    → verify_chain_integrity digest
        (length (create_all digest ws empty_store).rows + extra)
        (without_newest (create digest id now input (create_all digest ws empty_store)).rows)
      ≡ some valid
unfolding create
delete_newest_undetected digest ws id now input extra free =
    rw (without_newest-append (create_all digest ws empty_store).rows _)
      (created_log_verifies digest ws extra free)
