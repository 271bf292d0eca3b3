-- ===== src/AuditChain/Walk.antt =====
-- The fork check and the loop of the verification on a table whose rows form a chain.
use backend_foundation.Prelude.{
  ℕ, suc, ◌+◌, ◌≡◌, ◌≢◌, refl, sym, ◌∙◌, ap, Option, none, some, List, [], ◌∷◌, ◌++◌, All, arith,
  length, subst,
}
use backend_foundation.AuditChain.{Digest, AuditLog, same_hash, by_previous, find_fork, walk}
use backend_foundation.AuditChain.Distinct.{row_hash, Chain, last_of, Avoids, Distinct}
use backend_foundation.AuditChain.Verification.{
  same_hash_refl, by_previous-skips, by_previous-here, by_previous-none,
}

-- No row of the second list follows what a row of the first follows.
abbrev Apart : List AuditLog → List AuditLog → Type 0
Apart seen rs = All (λ s. Avoids s.previous_hash rs) seen

Apart-head :
    (r : AuditLog) (rs seen : List AuditLog)
    → Apart seen (r ∷ rs)
    → Avoids r.previous_hash seen × Apart seen rs
Apart-head r rs [] a = (tt, tt)
Apart-head r rs (s ∷ seen) a =
    let rest = Apart-head r rs seen a.1 in ((λ e. a.0.0 (sym e), rest.0), (a.0.1, rest.1))

pub find_fork-none :
    (seen rs : List AuditLog) → Apart seen rs → Distinct rs → find_fork seen rs ≡ none
unfolding find_fork
find_fork-none seen [] a d = refl
find_fork-none seen (r ∷ rs) a d =
    let (none_here, apart) = Apart-head r rs seen a in
    rw (by_previous-none r.previous_hash seen none_here)
      (find_fork-none (r ∷ seen) rs (d.0, apart) d.1)

pub before-Avoids :
    (before : List AuditLog) (r : AuditLog) (after : List AuditLog)
    → Distinct (before ++ r ∷ after)
    → Avoids r.previous_hash before
before-Avoids [] r after d = tt
before-Avoids (s ∷ before) r after d =
    (λ e. append-head s.previous_hash before r after d.0 (sym e), before-Avoids before r after d.1)
  where
    append-head :
        (p : Option ℕ) (bs : List AuditLog) (x : AuditLog) (xs : List AuditLog)
        → Avoids p (bs ++ x ∷ xs)
        → x.previous_hash ≢ p
    append-head p [] x xs a = a.0
    append-head p (b ∷ bs) x xs a = append-head p bs x xs a.1

pub append-move :
    (before : List AuditLog) (r : AuditLog) (after : List AuditLog)
    → before ++ (r ∷ after) ≡ (before ++ r ∷ []) ++ after
append-move [] r after = refl
append-move (s ∷ before) r after = ap (λ t. s ∷ t) (append-move before r after)

module _ (digest : Digest) where
  -- One turn of the loop at a row that has its own hash.
  walk-step :
      (fuel : ℕ) (rows : List AuditLog) (r : AuditLog) (v : ℕ)
      → r.hash ≡ some (row_hash digest r)
      → walk digest (suc fuel) rows (some r) r.previous_hash v
        ≡ walk digest fuel rows (by_previous r.hash rows) r.hash (v + 1)
  unfolding walk
  walk-step fuel rows r v h =
      ground (arith, ap (same_hash r.hash) h, same_hash_refl (some (row_hash digest r)), h)

  -- The loop goes through the rows of a chain one after the other.
  pub walk-prefix :
      (mid : List AuditLog) (fuel : ℕ) (rows before rest : List AuditLog) (p : Option ℕ) (v : ℕ)
      → rows ≡ before ++ (mid ++ rest)
      → Distinct rows
      → Chain digest p mid
      → walk digest (length mid + fuel) rows (by_previous p rows) p v
        ≡ walk digest fuel rows (by_previous (last_of p mid) rows) (last_of p mid) (length mid + v)
  walk-prefix [] fuel rows before rest p v e d c =
      let same_fuel : 0 + fuel ≡ fuel = omega arith in
      let same_count : 0 + v ≡ v = omega arith in cc (same_fuel, same_count)
  walk-prefix (r ∷ mid) fuel rows before rest p v e d c =
      let skipped =
        subst (λ h. Avoids h before) c.0
          (before-Avoids before r (mid ++ rest) (subst Distinct e d)) in
      let found : by_previous p rows ≡ some r =
        ap (by_previous p) e
        ∙ by_previous-skips p before (r ∷ (mid ++ rest)) skipped
        ∙ by_previous-here p r (mid ++ rest) c.0 in
      let turn = walk-step (length mid + fuel) rows r v c.1 in
      let rest_of_walk =
        walk-prefix mid fuel rows (before ++ r ∷ []) rest r.hash (v + 1)
          (e ∙ append-move before r (mid ++ rest)) d c.2 in
      let same_fuel : suc (length mid) + fuel ≡ suc (length mid + fuel) = omega arith in
      let same_count : length mid + (v + 1) ≡ suc (length mid) + v = omega arith in
      cc (found, c.0, turn, rest_of_walk, same_fuel, same_count)
