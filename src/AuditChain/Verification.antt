-- ===== src/AuditChain/Verification.antt =====
-- The verification accepts what `create` builds, and what it finds and does not find.
use backend_foundation.Prelude.{
  ℕ, ◌≡◌, ◌≢◌, refl, sym, Option, none, some, List, [], ◌∷◌, ◌++◌, arith, true, false, Bool-cases,
  inl, inr,
}
use backend_foundation.AuditChain.{
  Digest, AuditInput, AuditLog, AuditStore, create, same_hash, by_previous,
}
use backend_foundation.AuditChain.Distinct.{row_hash, Chain, last_of, Avoids}

-- A transaction: the id and the time it draws, and its input.
abbrev pub Write : Type 0
Write = ℕ × ℕ × AuditInput

unfoldable pub create_all : Digest → List Write → AuditStore → AuditStore
create_all digest [] store = store
create_all digest ((id, now, input) ∷ ws) store =
    create_all digest ws (create digest id now input store)

pub same_hash-eq : (h k : Option ℕ) → same_hash h k ≡ true → h ≡ k
same_hash-eq none none e = refl
same_hash-eq none (some k) e = cc
same_hash-eq (some h) none e = cc
same_hash-eq (some h) (some k) e = ground arith

pub same_hash_refl : (h : Option ℕ) → same_hash h h ≡ true
same_hash_refl none = refl
same_hash_refl (some h) = ground arith

pub same_hash_ne : (h k : Option ℕ) → h ≢ k → same_hash h k ≡ false
same_hash_ne h k ne = elim (Bool-cases (same_hash h k)) [
  | inl e ↦ absurd (ne (same_hash-eq h k e))
  | inr e ↦ e
]

-- The row that follows a hash, behind rows that do not.
pub by_previous-skips :
    (h : Option ℕ) (before after : List AuditLog)
    → Avoids h before
    → by_previous h (before ++ after) ≡ by_previous h after
unfolding by_previous
by_previous-skips h [] after a = refl
by_previous-skips h (r ∷ before) after a =
    rw (same_hash_ne r.previous_hash h a.0) (by_previous-skips h before after a.1)

pub by_previous-here :
    (h : Option ℕ) (r : AuditLog) (after : List AuditLog)
    → r.previous_hash ≡ h
    → by_previous h (r ∷ after) ≡ some r
unfolding by_previous
by_previous-here h r after e = rw (e, same_hash) (ground (arith, same_hash_refl h))

pub by_previous-none : (h : Option ℕ) (rs : List AuditLog) → Avoids h rs → by_previous h rs ≡ none
unfolding by_previous
by_previous-none h [] a = refl
by_previous-none h (r ∷ rs) a = rw (same_hash_ne r.previous_hash h a.0) (by_previous-none h rs a.1)

pub append-Chain :
    (digest : Digest) (p : Option ℕ) (rs : List AuditLog) (r : AuditLog)
    → Chain digest p rs
    → r.previous_hash ≡ last_of p rs
    → r.hash ≡ some (row_hash digest r)
    → Chain digest p (rs ++ r ∷ [])
append-Chain digest p [] r c e h = (e, h, tt)
append-Chain digest p (s ∷ rs) r c e h = (c.0, c.1, append-Chain digest s.hash rs r c.2 e h)

pub last_of-append :
    (p : Option ℕ) (rs : List AuditLog) (r : AuditLog) → last_of p (rs ++ r ∷ []) ≡ r.hash
last_of-append p [] r = refl
last_of-append p (s ∷ rs) r = last_of-append s.hash rs r

-- The table is one chain, and the state row has its last hash.
pub record IsChained (digest : Digest) (store : AuditStore) : Type 0 where
  pub chain : Chain digest none store.rows
  pub last : store.last_hash ≡ last_of none store.rows

create-IsChained :
    (digest : Digest) (id now : ℕ) (input : AuditInput) (store : AuditStore)
    → IsChained digest store
    → IsChained digest (create digest id now input store)
unfolding create
create-IsChained digest id now input store v = record {
  chain = append-Chain digest none store.rows _ v.chain v.last refl;
  last = sym (last_of-append none store.rows _);
}

pub create_all-IsChained :
    (digest : Digest) (ws : List Write) (store : AuditStore)
    → IsChained digest store
    → IsChained digest (create_all digest ws store)
unfolding create_all
create_all-IsChained digest [] store v = v
create_all-IsChained digest ((id, now, input) ∷ ws) store v =
    create_all-IsChained digest ws _ (create-IsChained digest id now input store v)
