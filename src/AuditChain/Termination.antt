-- ===== src/AuditChain/Termination.antt =====
-- The loop of the verification ends, on any table.
use backend_foundation.Prelude.{
  ℕ, zero, suc, ◌+◌, ◌≡◌, ◌≤◌, refl, sym, ◌∙◌, subst, ◌≢◌, Option, none, some, true, false,
  Bool-cases, not, inl, inr, List, [], ◌∷◌, ◌++◌, All, Memᴰ, arith, length, length-append, keep,
}
use backend_foundation.AuditChain.{
  Digest, AuditLog, ChainCheck, content_changed, finish, forked, same_hash, by_previous, find_fork,
  walk, check_rows, verify_chain_integrity,
}
use backend_foundation.AuditChain.Distinct.{
  row_hash, Chain, last_of, Avoids, Distinct, CollisionFree, Chain-Distinct,
}
use backend_foundation.AuditChain.Verification.{
  append-Chain, last_of-append, same_hash_ne, same_hash_refl,
}
use backend_foundation.AuditChain.Soundness.{hashed, by_previous-mem, hash_after, hash-own}

-- A row of the table follows what this row follows.
abbrev HasPlace : List AuditLog → AuditLog → Type 0
HasPlace rows v = (r : AuditLog) × Memᴰ r rows × (r.previous_hash ≡ v.previous_hash)

-- The rows that follow something else.
abbrev others : Option ℕ → List AuditLog → List AuditLog
others h rows = keep (λ r. not (same_hash r.previous_hash h)) rows

others-le : (h : Option ℕ) (rows : List AuditLog) → length (others h rows) ≤ length rows
others-le h [] = omega arith
others-le h (r ∷ rows) = ground (arith, others-le h rows)

others-fewer :
    (h : Option ℕ) (rows : List AuditLog) {r : AuditLog}
    → Memᴰ r rows
    → r.previous_hash ≡ h
    → suc (length (others h rows)) ≤ length rows
others-fewer h [] m e = elim m [ ]
others-fewer h (x ∷ rows) (Memᴰ.head same) e =
    let here : same_hash x.previous_hash h ≡ true =
      subst (λ (y : AuditLog). same_hash y.previous_hash h ≡ true) same
        (subst (λ q. same_hash q h ≡ true) (sym e) (same_hash_refl h)) in
    ground (arith, here, others-le h rows)
others-fewer h (x ∷ rows) (Memᴰ.tail m) e = ground (arith, others-fewer h rows m e)

others-mem :
    (h : Option ℕ) (rows : List AuditLog) {r : AuditLog}
    → Memᴰ r rows
    → r.previous_hash ≢ h
    → Memᴰ r (others h rows)
others-mem h [] m ne = elim m [ ]
others-mem h (x ∷ rows) {r} (Memᴰ.head same) ne =
    let apart : same_hash x.previous_hash h ≡ false =
      subst (λ (y : AuditLog). same_hash y.previous_hash h ≡ false) same
        (same_hash_ne r.previous_hash h ne) in
    rw apart (Memᴰ.head same)
others-mem h (x ∷ rows) (Memᴰ.tail m) ne = elim (Bool-cases (same_hash x.previous_hash h)) [
  | inl e ↦ rw e (others-mem h rows m ne)
  | inr e ↦ rw e (Memᴰ.tail (others-mem h rows m ne))
]

places-others :
    (h : Option ℕ) (rows vs : List AuditLog)
    → Avoids h vs
    → All (HasPlace rows) vs
    → All (HasPlace (others h rows)) vs
places-others h rows [] a placed = tt
places-others h rows (v ∷ vs) a placed =
    let (r, m, e) = placed.0 in
    ((r, others-mem h rows m (λ q. a.0 (sym e ∙ q)), e), places-others h rows vs a.1 placed.1)

-- Rows that follow different rows, each where a row of the table stands, are no more than the table
-- has.
places-le :
    (vs rows : List AuditLog) → Distinct vs → All (HasPlace rows) vs → length vs ≤ length rows
places-le [] rows d placed = omega arith
places-le (v ∷ vs) rows d placed =
    let (r, m, e) = placed.0 in
    let h = v.previous_hash in
    omega (
      arith,
      others-fewer h rows m e,
      places-le vs (others h rows) d.1 (places-others h rows vs d.0 placed.1),
    )

All-append :
    (Q : AuditLog → Type 0) (vs : List AuditLog) (v : AuditLog)
    → All Q vs
    → Q v
    → All Q (vs ++ v ∷ [])
All-append Q [] v a q = (q, tt)
All-append Q (x ∷ vs) v a q = (a.0, All-append Q vs v a.1 q)

module _ (digest : Digest) (free : CollisionFree digest) (rows : List AuditLog) where
  -- The row with the hash that it ought to have.
  abbrev mended : AuditLog → AuditLog
  mended r = record r { hash = some (row_hash digest r) }

  -- After the rows `vs`, the next row is one more place of the table.
  next-le :
      (vs : List AuditLog) (r : AuditLog) (p : Option ℕ)
      → Chain digest none vs
      → All (HasPlace rows) vs
      → last_of none vs ≡ p
      → by_previous p rows ≡ some r
      → suc (length vs) ≤ length rows
  next-le vs r p c placed last e =
      let (m, follows) = by_previous-mem p rows e in
      let longer = append-Chain digest none vs (mended r) c (follows ∙ sym last) refl in
      let all = All-append (HasPlace rows) vs (mended r) placed (r, m, refl) in
      omega (
        arith,
        places-le (vs ++ mended r ∷ []) rows (Chain-Distinct digest free _ longer) all,
        length-append vs (mended r ∷ []),
      )

  walk-ends :
      (fuel : ℕ) (vs : List AuditLog) (o : Option AuditLog) (p : Option ℕ) (v : ℕ)
      → by_previous p rows ≡ o
      → Chain digest none vs
      → All (HasPlace rows) vs
      → last_of none vs ≡ p
      → length rows ≤ fuel + length vs
      → (c : ChainCheck) × (walk digest fuel rows o p v ≡ some c)
  unfolding walk
  walk-ends fuel vs none p v e c placed last enough = (finish v (length rows), refl)
  walk-ends zero vs (some r) p v e c placed last enough =
      absurd (omega (arith, next-le vs r p c placed last e, enough))
  walk-ends (suc fuel) vs (some r) p v e c placed last enough =
      elim (Bool-cases (same_hash r.hash (some (hash_after digest rows p r)))) [
        | inl same ↦
            let (m, follows) = by_previous-mem p rows e in
            let own = hash-own digest rows p r follows same in
            let longer = append-Chain digest none vs r c (follows ∙ sym last) own in
            let all = All-append (HasPlace rows) vs r placed (r, m, refl) in
            let (answer, ends) =
              walk-ends fuel (vs ++ r ∷ []) (by_previous r.hash rows) r.hash (v + 1) refl longer all
                (last_of-append none vs r) (omega (arith, enough, length-append vs (r ∷ []))) in
            (answer, ground (arith, ends))
        | inr other ↦ (content_changed r.id, ground arith)
      ]

-- The verification ends on any table, also one that was tampered with: it needs no more turns of its
-- loop than the table has rows. A loop in the stored hashes would be a collision of the hash.
pub verify_terminates :
    (digest : Digest) (free : CollisionFree digest) (table : List AuditLog)
    → (c : ChainCheck) × (verify_chain_integrity digest (length (hashed table)) table ≡ some c)
unfolding verify_chain_integrity
verify_terminates digest free table = checked (find_fork [] (hashed table))
  where
    checked :
        (fork : Option ℕ)
        → (c : ChainCheck) × (check_rows digest (length (hashed table)) (hashed table) fork
            ≡ some c)
    checked none =
        walk-ends digest free (hashed table) (length (hashed table)) [] _ none 0 refl tt tt refl
          (omega arith)
    checked (some id) = (forked id, refl)
