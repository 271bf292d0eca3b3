-- ===== src/AuditChain/Soundness.antt =====
-- What it means that the verification answers `valid`.
use mathlib.Core.List.{Perm, perm_middle}
use mathlib.Core.List.Perm
use backend_foundation.Prelude.{
  ℕ, zero, suc, ◌+◌, ◌≡◌, refl, sym, ◌∙◌, ap, subst, ◌≢◌, Option, none, some, true, Bool-cases, inl,
  inr, List, [], ◌∷◌, ◌++◌, All, Memᴰ, arith, length, length-append, find_sound, keep, is_some,
}
use backend_foundation.AuditChain.{
  Digest, AuditLog, canonicalize, compute_hash, valid, same_hash, by_previous, find_fork, finish,
  walk, check_rows, verify_chain_integrity,
}
use backend_foundation.AuditChain.Distinct.{
  row_hash, Chain, Avoids, Distinct, CollisionFree, Chain-Distinct,
}
use backend_foundation.AuditChain.Verification.{same_hash-eq}

abbrev pub hashed : List AuditLog → List AuditLog
hashed table = keep (λ r. is_some r.hash) table

abbrev pub Within : List AuditLog → List AuditLog → Type 0
Within rows ws = All (λ w. Memᴰ w rows) ws

pub by_previous-mem :
    (h : Option ℕ) (rows : List AuditLog) {r : AuditLog}
    → by_previous h rows ≡ some r
    → Memᴰ r rows × (r.previous_hash ≡ h)
unfolding by_previous
by_previous-mem h rows e =
    let (m, held) = find_sound (λ r. same_hash r.previous_hash h) rows e in
    (m, same_hash-eq _ h held)

finish-valid : (v n : ℕ) → finish v n ≡ valid → v ≡ n
finish-valid v n h = ground arith

-- The rows that the loop goes through before it answers `valid`.
abbrev Rest : Digest → List AuditLog → Option ℕ → ℕ → Type 0
Rest digest rows p v =
    (ws : List AuditLog) × Chain digest p ws × Within rows ws × (length ws + v ≡ length rows)

pub mem-split :
    (rows : List AuditLog) {w : AuditLog}
    → Memᴰ w rows
    → (before after : List AuditLog) × (rows ≡ before ++ w ∷ after)
mem-split [] m = elim m [ ]
mem-split (r ∷ rows) (Memᴰ.head same) = ([], rows, ap (λ x. x ∷ rows) (sym same))
mem-split (r ∷ rows) (Memᴰ.tail m) =
    let (before, after, parts) = mem-split rows m in (r ∷ before, after, ap (λ t. r ∷ t) parts)

mem-without :
    (w x : AuditLog) (before after : List AuditLog)
    → x.previous_hash ≢ w.previous_hash
    → Memᴰ x (before ++ w ∷ after)
    → Memᴰ x (before ++ after)
mem-without w x [] after ne (Memᴰ.head same) =
    absurd (ne (ap (λ (r : AuditLog). r.previous_hash) same))
mem-without w x [] after ne (Memᴰ.tail m) = m
mem-without w x (b ∷ before) after ne (Memᴰ.head same) = Memᴰ.head same
mem-without w x (b ∷ before) after ne (Memᴰ.tail m) = Memᴰ.tail (mem-without w x before after ne m)

Within-without :
    (w : AuditLog) (before after ws : List AuditLog)
    → Avoids w.previous_hash ws
    → Within (before ++ w ∷ after) ws
    → Within (before ++ after) ws
Within-without w before after [] a inside = tt
Within-without w before after (x ∷ ws) a inside =
    (mem-without w x before after a.0 inside.0, Within-without w before after ws a.1 inside.1)

module _ (digest : Digest) (rows : List AuditLog) where
  abbrev pub hash_after : Option ℕ → AuditLog → ℕ
  hash_after p r = compute_hash digest (canonicalize digest r.id r.content r.created_at) p

  pub hash-own :
      (p : Option ℕ) (r : AuditLog)
      → r.previous_hash ≡ p
      → same_hash r.hash (some (hash_after p r)) ≡ true
      → r.hash ≡ some (row_hash digest r)
  hash-own p r follows same =
      same_hash-eq r.hash _ same ∙ ap (λ q. some (hash_after q r)) (sym follows)

  walk-valid :
      (fuel : ℕ) (o : Option AuditLog) (p : Option ℕ) (v : ℕ)
      → by_previous p rows ≡ o
      → walk digest fuel rows o p v ≡ some valid
      → Rest digest rows p v
  unfolding walk
  walk-valid fuel none p v e h =
      let all : v ≡ length rows = finish-valid v (length rows) (ground arith) in
      ([], tt, tt, omega (arith, all))
  walk-valid zero (some r) p v e h = cc
  walk-valid (suc fuel) (some r) p v e h =
      let (m, follows) = by_previous-mem p rows e in
      elim (Bool-cases (same_hash r.hash (some (hash_after p r)))) [
        | inl same ↦
            let next : walk digest fuel rows (by_previous r.hash rows) r.hash (v + 1) ≡ some valid =
              ground (arith, h) in
            let (ws, c, inside, counted) =
              walk-valid fuel (by_previous r.hash rows) r.hash (v + 1) refl next in
            (r ∷ ws, (follows, hash-own p r follows same, c), (m, inside), omega (arith, counted))
        | inr other ↦ absurd (ground (arith, h))
      ]

-- Distinct rows of a table, as many as it has.
Perm-Within :
    (ws rows : List AuditLog)
    → Distinct ws
    → Within rows ws
    → length ws ≡ length rows
    → Perm ws rows
Perm-Within [] [] d inside n = Perm.nil
Perm-Within [] (r ∷ rows) d inside n = absurd (omega (arith, n))
Perm-Within (w ∷ ws) rows d inside n =
    let (before, after, parts) = mem-split rows inside.0 in
    let fewer = Within-without w before after ws d.0 (subst (λ t. Within t ws) parts inside.1) in
    let count : length rows ≡ suc (length (before ++ after)) =
      omega
        (arith, ap length parts, length-append before (w ∷ after), length-append before after) in
    let rest = Perm-Within ws (before ++ after) d.1 fewer (omega (arith, n, count)) in
    Perm.trans (Perm.cons w rest) (
      Perm.symm
        (subst (λ t. Perm t (w ∷ (before ++ after))) (sym parts) (perm_middle before after)))

-- When the verification answers `valid`, the rows with a hash are, in some order, one chain from the
-- first row on: each row has the hash of its content and of the row before it, none is left out and
-- none occurs twice. The hash is taken to have no collisions.
pub verify_sound :
    (digest : Digest) (free : CollisionFree digest) (fuel : ℕ) (table : List AuditLog)
    → verify_chain_integrity digest fuel table ≡ some valid
    → (ws : List AuditLog) × Chain digest none ws × Perm ws (hashed table)
unfolding verify_chain_integrity
verify_sound digest free fuel table h =
    let (ws, c, inside, counted) = rows-valid (find_fork [] (hashed table)) h in
    (
      ws,
      c,
      Perm-Within ws (hashed table) (Chain-Distinct digest free ws c) inside
          (omega (arith, counted)),
    )
  where
    rows-valid :
        (fork : Option ℕ)
        → check_rows digest fuel (hashed table) fork ≡ some valid
        → Rest digest (hashed table) none 0
    rows-valid none e = walk-valid digest (hashed table) fuel _ none 0 refl e
    rows-valid (some id) e = cc
