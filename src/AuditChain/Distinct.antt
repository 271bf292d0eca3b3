-- ===== src/AuditChain/Distinct.antt =====
-- In a chain no two rows follow the same row.
use backend_foundation.Prelude.{
  ℕ, ◌≡◌, ◌≢◌, sym, ◌∙◌, Option, none, some, List, [], ◌∷◌, All, subst,
}
use backend_foundation.AuditChain.{Digest, AuditLog, canonicalize, compute_hash}

-- The hash of a row tells the hash of the row before it: no collision is known for sha256.
abbrev pub CollisionFree : Digest → Type 0
CollisionFree digest = (c d : ℕ) (p q : Option ℕ) → digest.sha256 c p ≡ digest.sha256 d q → p ≡ q

abbrev pub row_hash : Digest → AuditLog → ℕ
row_hash digest r =
    compute_hash digest (canonicalize digest r.id r.content r.created_at) r.previous_hash

-- Each row has its own hash, and names the row before it.
abbrev pub Chain : Digest → Option ℕ → List AuditLog → Type 0
Chain digest p [] = Unit
Chain digest p (r ∷ rs) =
    (r.previous_hash ≡ p) × (r.hash ≡ some (row_hash digest r)) × Chain digest r.hash rs

-- The hash of the last row, after the row with this hash.
abbrev pub last_of : Option ℕ → List AuditLog → Option ℕ
last_of p [] = p
last_of p (r ∷ rs) = last_of r.hash rs

abbrev pub Avoids : Option ℕ → List AuditLog → Type 0
Avoids p = All (λ r. r.previous_hash ≢ p)

abbrev pub Distinct : List AuditLog → Type 0
Distinct [] = Unit
Distinct (r ∷ rs) = Avoids r.previous_hash rs × Distinct rs

module _ (digest : Digest) (free : CollisionFree digest) where
  hash-apart :
      (r s : AuditLog)
      → r.previous_hash ≢ s.previous_hash
      → some (row_hash digest r) ≢ some (row_hash digest s)
  unfolding compute_hash
  hash-apart r s ne e = ne (
      free (canonicalize digest r.id r.content r.created_at)
        (canonicalize digest s.id s.content s.created_at) r.previous_hash s.previous_hash (cc e))

  -- If no row follows what `s` follows, no row after the first follows `s`.
  shift :
      (s r : AuditLog) (rs : List AuditLog)
      → s.hash ≡ some (row_hash digest s)
      → r.hash ≡ some (row_hash digest r)
      → Chain digest r.hash rs
      → Avoids s.previous_hash (r ∷ rs)
      → Avoids s.hash rs
  shift s r [] hs hr c a = tt
  shift s r (t ∷ rs) hs hr c a =
      (λ e. hash-apart r s a.0 (sym hr ∙ sym c.0 ∙ e ∙ hs), shift s t rs hs c.1 c.2 a.1)

  rest-Distinct :
      (r : AuditLog) (rs : List AuditLog)
      → r.hash ≡ some (row_hash digest r)
      → Chain digest r.hash rs
      → Avoids r.previous_hash rs
      → Distinct (r ∷ rs)
  rest-Distinct r [] h c a = (a, tt)
  rest-Distinct r (s ∷ rs) h c a = (
    a,
    rest-Distinct s rs c.1 c.2 (subst (λ p. Avoids p rs) (sym c.0) (shift r s rs h c.1 c.2 a)),
  )

  after-first :
      (h : Option ℕ) (n : ℕ) (rs : List AuditLog) → h ≡ some n → Chain digest h rs → Avoids none rs
  after-first h n [] e c = tt
  after-first h n (r ∷ rs) e c =
      (λ q. cc (q, e, c.0), after-first r.hash (row_hash digest r) rs c.1 c.2)

  pub Chain-Distinct : (rs : List AuditLog) → Chain digest none rs → Distinct rs
  Chain-Distinct [] c = tt
  Chain-Distinct (r ∷ rs) c =
      rest-Distinct r rs c.1 c.2
        (subst (λ p. Avoids p rs) (sym c.0) (after-first r.hash (row_hash digest r) rs c.1 c.2))
