-- ===== src/AuditChain/Tampering.antt =====
-- A row of the audit log whose content was changed is found.
use backend_foundation.Prelude.{
  ℕ, suc, ◌+◌, ◌≡◌, ◌≢◌, refl, sym, ◌∙◌, ap, Option, none, some, List, [], ◌∷◌, ◌++◌, All, arith,
  length, is_some, true, subst,
}
use backend_foundation.AuditChain.{
  Digest, AuditLog, content_changed, by_previous, walk, verify_chain_integrity,
}
use backend_foundation.AuditChain.Distinct.{
  CollisionFree, row_hash, Chain, last_of, Avoids, Distinct, Chain-Distinct,
}
use backend_foundation.AuditChain.Verification.{
  Write, create_all, create_all-IsChained, by_previous-skips, by_previous-here, same_hash_ne,
}
use backend_foundation.AuditChain.Walk.{before-Avoids, walk-prefix}
use backend_foundation.AuditChain.Laws.{empty_store, Hashed, Chain-Hashed, verify-walk}

split-Chain :
    (digest : Digest) (p : Option ℕ) (before : List AuditLog) (r : AuditLog) (after : List AuditLog)
    → Chain digest p (before ++ r ∷ after)
    → Chain digest p before
      × (r.previous_hash ≡ last_of p before)
      × (r.hash ≡ some (row_hash digest r))
split-Chain digest p [] r after c = (tt, c.0, c.1)
split-Chain digest p (s ∷ before) r after c =
    let (chain, prev, own) = split-Chain digest s.hash before r after c.2 in
    ((c.0, c.1, chain), prev, own)

-- Putting one row in the place of another keeps what holds of all rows, if it holds of that one.
swap-All :
    (P : AuditLog → Type 0) (before : List AuditLog) (r r' : AuditLog) (after : List AuditLog)
    → P r'
    → All P (before ++ r ∷ after)
    → All P (before ++ r' ∷ after)
swap-All P [] r r' after p a = (p, a.1)
swap-All P (s ∷ before) r r' after p a = (a.0, swap-All P before r r' after p a.1)

all-at :
    (P : AuditLog → Type 0) (before : List AuditLog) (r : AuditLog) (after : List AuditLog)
    → All P (before ++ r ∷ after)
    → P r
all-at P [] r after a = a.0
all-at P (s ∷ before) r after a = all-at P before r after a.1

swap-Distinct :
    (before : List AuditLog) (r r' : AuditLog) (after : List AuditLog)
    → r'.previous_hash ≡ r.previous_hash
    → Distinct (before ++ r ∷ after)
    → Distinct (before ++ r' ∷ after)
swap-Distinct [] r r' after e d = (subst (λ h. Avoids h after) (sym e) d.0, d.1)
swap-Distinct (s ∷ before) r r' after e d = (
  swap-All (λ x. x.previous_hash ≢ s.previous_hash) before r r' after
      (λ q. all-at (λ x. x.previous_hash ≢ s.previous_hash) before r after d.0 (sym e ∙ q)) d.0,
  swap-Distinct before r r' after e d.1,
)

-- The loop stops at a row that does not have its own hash.
walk-stops :
    (digest : Digest) (fuel : ℕ) (rows : List AuditLog) (r : AuditLog) (v : ℕ)
    → r.hash ≢ some (row_hash digest r)
    → walk digest (suc fuel) rows (some r) r.previous_hash v ≡ some (content_changed r.id)
unfolding walk
walk-stops digest fuel rows r v ne =
    ground (arith, same_hash_ne r.hash (some (row_hash digest r)) ne)

-- Take the log of any run of writes and put another row in the place of one of its rows, with the
-- same hash and the same previous hash, but with a content that hashes differently: the
-- verification reports that row as changed.
pub tampering_found :
    (digest : Digest) (ws : List Write) (before : List AuditLog) (r r' : AuditLog)
    (after : List AuditLog) (extra : ℕ)
    → CollisionFree digest
    → (create_all digest ws empty_store).rows ≡ before ++ r ∷ after
    → r'.hash ≡ r.hash
    → r'.previous_hash ≡ r.previous_hash
    → row_hash digest r' ≢ row_hash digest r
    → verify_chain_integrity digest (length before + suc extra) (before ++ r' ∷ after)
      ≡ some (content_changed r'.id)
tampering_found digest ws before r r' after extra free e same_own same_prev ne =
    let whole =
      (create_all-IsChained digest ws empty_store (record { chain = tt; last = refl })).chain in
    let c : Chain digest none (before ++ r ∷ after) = subst (Chain digest none) e whole in
    let (chain, prev, own) = split-Chain digest none before r after c in
    let d = swap-Distinct before r r' after same_prev (Chain-Distinct digest free _ c) in
    let h : Hashed (before ++ r' ∷ after) =
      swap-All (λ x. is_some x.hash ≡ true) before r r' after
        (ap is_some same_own
          ∙ all-at (λ x. is_some x.hash ≡ true) before r after (Chain-Hashed digest none _ c))
        (Chain-Hashed digest none _ c) in
    let at_row : by_previous (last_of none before) (before ++ r' ∷ after) ≡ some r' =
      by_previous-skips (last_of none before) before (r' ∷ after)
        (subst (λ p. Avoids p before) (same_prev ∙ prev) (before-Avoids before r' after d))
      ∙ by_previous-here (last_of none before) r' after (same_prev ∙ prev) in
    let lie : r'.hash ≢ some (row_hash digest r') = λ q. ne (cc (q, same_own, own)) in
    cc (
      verify-walk digest (length before + suc extra) (before ++ r' ∷ after) h d,
      walk-prefix digest before (suc extra) (before ++ r' ∷ after) [] (r' ∷ after) none 0 refl d
          chain,
      at_row,
      same_prev ∙ prev,
      walk-stops digest extra (before ++ r' ∷ after) r' (length before + 0) lie,
    )
