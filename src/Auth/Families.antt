-- ===== src/Auth/Families.antt =====
-- The session table between calls: a family of refresh tokens belongs to one login. The calls of
-- the service change the table by two kinds of step, which keep it so.
use backend_foundation.Prelude.{
  ℕ, ◌≤◌, ◌≡◌, ◌≢◌, sym, subst, ◌∙◌, ◌⊎◌, inl, inr, List, [], ◌∷◌, map, Memᴰ, arith, mem-map,
  mem_map, ap,
}
use backend_foundation.Auth.Data.{RefreshToken}
use backend_foundation.Auth.Rows.{active_in, SameSession}

-- Ids name rows; the rows of a family have one user and one deadline; at most one is active.
pub record FamiliesValid (ts : List RefreshToken) : Type 0 where
  pub ids : (a b : RefreshToken) → Memᴰ a ts → Memᴰ b ts → a.id ≡ b.id → a ≡ b
  pub owner :
      (a b : RefreshToken)
      → Memᴰ a ts
      → Memᴰ b ts
      → a.family_id ≡ b.family_id
      → a.user_id ≡ b.user_id
  pub deadline :
      (a b : RefreshToken)
      → Memᴰ a ts
      → Memᴰ b ts
      → a.family_id ≡ b.family_id
      → a.family_session_expires_at ≡ b.family_session_expires_at
  pub single : (f : ℕ) → active_in f ts ≤ 1

pub SameSession-refl : (t : RefreshToken) → SameSession t t
SameSession-refl t = ground arith

pub SameSession-trans : (r s t : RefreshToken) → SameSession r s → SameSession s t → SameSession r t
SameSession-trans r s t p q = ground arith

-- The row starts a family, or goes on with that of a row.
abbrev pub Continues : RefreshToken → List RefreshToken → Type 0
Continues row ts =
    ((a : RefreshToken) → Memᴰ a ts → a.family_id ≢ row.family_id)
    ⊎ ((a : RefreshToken) × Memᴰ a ts
        × (row.family_id ≡ a.family_id)
        × (row.user_id ≡ a.user_id)
        × (row.family_session_expires_at ≡ a.family_session_expires_at))

pub data TableStep (ts us : List RefreshToken) : Type 0 where
  updates :
      (g : RefreshToken → RefreshToken)
      → ((t : RefreshToken) → SameSession t (g t))
      → us ≡ map g ts
      → TableStep ts us
  adds :
      (row : RefreshToken)
      → ((a : RefreshToken) → Memᴰ a ts → a.id ≢ row.id)
      → Continues row ts
      → active_in row.family_id ts ≡ 0
      → us ≡ row ∷ ts
      → TableStep ts us

module _ (g : RefreshToken → RefreshToken) (same : (t : RefreshToken) → SameSession t (g t)) where
  active-map : (f : ℕ) (ts : List RefreshToken) → active_in f (map g ts) ≤ active_in f ts
  active-map f [] = omega arith
  active-map f (t ∷ ts) =
      ground (arith, active-map f ts, (same t).family_id, (same t).stays_revoked)

  mem-updates :
      (ts : List RefreshToken) {a : RefreshToken}
      → Memᴰ a (map g ts)
      → (s : RefreshToken) × Memᴰ s ts × SameSession s a × (a ≡ g s)
  mem-updates ts m =
      let (s, n, e) = mem-map g ts m in (s, n, subst (SameSession s) (sym e) (same s), e)

  updates-Valid : (ts : List RefreshToken) → FamiliesValid ts → FamiliesValid (map g ts)
  updates-Valid ts v = record {
    ids = λ a b m n e.
        let (s, m', p, eq) = mem-updates ts m in
        let (t, n', q, eq') = mem-updates ts n in
        eq ∙ ap g (v.ids s t m' n' (sym p.id ∙ e ∙ q.id)) ∙ sym eq';
    owner = λ a b m n e.
        let (s, m', p, eq) = mem-updates ts m in
        let (t, n', q, eq') = mem-updates ts n in
        p.user_id ∙ v.owner s t m' n' (sym p.family_id ∙ e ∙ q.family_id) ∙ sym q.user_id;
    deadline = λ a b m n e.
        let (s, m', p, eq) = mem-updates ts m in
        let (t, n', q, eq') = mem-updates ts n in
        p.deadline ∙ v.deadline s t m' n' (sym p.family_id ∙ e ∙ q.family_id) ∙ sym q.deadline;
    single = λ f. omega (arith, active-map f ts, v.single f);
  }

module _ (row : RefreshToken) (ts : List RefreshToken) (v : FamiliesValid ts) where
  -- A row of the same family has the user and the deadline of the new row.
  row-owner :
      Continues row ts
      → (b : RefreshToken) → Memᴰ b ts
      → row.family_id ≡ b.family_id
      → (row.user_id ≡ b.user_id) × (row.family_session_expires_at ≡ b.family_session_expires_at)
  row-owner (inl new) b n e = absurd (new b n (sym e))
  row-owner (inr (a, m, f, u, d)) b n e =
      (u ∙ v.owner a b m n (sym f ∙ e), d ∙ v.deadline a b m n (sym f ∙ e))

  adds-ids :
      ((a : RefreshToken) → Memᴰ a ts → a.id ≢ row.id)
      → (a b : RefreshToken) → Memᴰ a (row ∷ ts)
      → Memᴰ b (row ∷ ts)
      → a.id ≡ b.id
      → a ≡ b
  adds-ids new a b (Memᴰ.head p) (Memᴰ.head q) e = p ∙ sym q
  adds-ids new a b (Memᴰ.head p) (Memᴰ.tail n) e = absurd (new b n (cc))
  adds-ids new a b (Memᴰ.tail m) (Memᴰ.head q) e = absurd (new a m (cc))
  adds-ids new a b (Memᴰ.tail m) (Memᴰ.tail n) e = v.ids a b m n e

  adds-owner :
      Continues row ts
      → (a b : RefreshToken) → Memᴰ a (row ∷ ts)
      → Memᴰ b (row ∷ ts)
      → a.family_id ≡ b.family_id
      → (a.user_id ≡ b.user_id) × (a.family_session_expires_at ≡ b.family_session_expires_at)
  adds-owner c a b (Memᴰ.head p) (Memᴰ.head q) e = (cc, cc)
  adds-owner c a b (Memᴰ.head p) (Memᴰ.tail n) e =
      let same = row-owner c b n (cc) in (cc (same.0), cc (same.1))
  adds-owner c a b (Memᴰ.tail m) (Memᴰ.head q) e =
      let same = row-owner c a m (cc) in (cc (same.0), cc (same.1))
  adds-owner c a b (Memᴰ.tail m) (Memᴰ.tail n) e = (v.owner a b m n e, v.deadline a b m n e)

  adds-Valid :
      ((a : RefreshToken) → Memᴰ a ts → a.id ≢ row.id)
      → Continues row ts
      → active_in row.family_id ts ≡ 0
      → FamiliesValid (row ∷ ts)
  adds-Valid new c alone = record {
    ids = adds-ids new;
    owner = λ a b m n e. (adds-owner c a b m n e).0;
    deadline = λ a b m n e. (adds-owner c a b m n e).1;
    single = λ f. ground (arith, v.single f);
  }

pub TableStep-Valid :
    {ts us : List RefreshToken} → TableStep ts us → FamiliesValid ts → FamiliesValid us
TableStep-Valid {ts} (updates g same e) v = rw e (updates-Valid g same ts v)
TableStep-Valid {ts} (adds row new c alone e) v = rw e (adds-Valid row ts v new c alone)

-- Steps keep each row, up to its revocation.
pub TableStep-keeps :
    {ts us : List RefreshToken}
    → TableStep ts us
    → (s : RefreshToken) → Memᴰ s ts
    → (t : RefreshToken) × Memᴰ t us × SameSession s t
TableStep-keeps {ts} (updates g same e) s m =
    (g s, subst (Memᴰ (g s)) (sym e) (mem_map g ts m), same s)
TableStep-keeps (adds row new c alone e) s m =
    (s, subst (Memᴰ s) (sym e) (Memᴰ.tail m), SameSession-refl s)
