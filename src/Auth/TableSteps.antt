-- ===== src/Auth/TableSteps.antt =====
-- How the calls that add rows to the session table change it: by steps that keep the families valid.
use backend_foundation.Prelude.{
  ℕ, ◌==◌, ◌≡◌, ◌≢◌, refl, sym, subst, ◌∙◌, ap, ◌⊎◌, inl, inr, Bool, true, ◌&&◌, Option, none, some,
  List, ◌∷◌, Memᴰ, arith, All-intro, find_sound, count_where_pos, count_where_zero, if◌then◌else◌,
  mem-map, mem_map, ==_iff,
}
use backend_foundation.Auth.Data.{User, RefreshToken, DeviceContext, Database, Env, Crypto}
use backend_foundation.Auth.Users
use backend_foundation.Auth.Repository.{is_active, revoke_row, revoke_where, create_refresh_token}
use backend_foundation.Auth.Refresh.{issue_tokens_for_user, refresh, refresh_row}
use backend_foundation.Auth.Rows.{
  active_in, SameSession, revoke-SameSession, count-revoke_where_sub,
}
use backend_foundation.Auth.Families.{FamiliesValid, TableStep, updates, adds, Continues}
use backend_foundation.Auth.Rotation.{claimed, found-mem, usable-guards, rotated_row, refresh_cases}

-- The random values of a call are new to the session table.
abbrev pub IsNew : Env → List RefreshToken → Type 0
IsNew env ts =
    (a : RefreshToken) → Memᴰ a ts → (a.id ≢ env.fresh_id) × (a.family_id ≢ env.fresh_family)

pub data TableSteps (ts : List RefreshToken) : List RefreshToken → Type 0 where
  done : TableSteps ts ts
  more : {us vs : List RefreshToken} → TableSteps ts us → TableStep us vs → TableSteps ts vs

pub one : {ts us : List RefreshToken} → TableStep ts us → TableSteps ts us
one s = more done s

pub revoked_by :
    (p : RefreshToken → Bool) (now : ℕ) (ts : List RefreshToken)
    → TableStep ts (revoke_where p now ts)
unfolding revoke_where
revoked_by p now ts =
    updates (λ t. if p t && is_active t then revoke_row now t else t) (revoke-SameSession p now)
      refl

active-none :
    (f : ℕ) (ts : List RefreshToken)
    → ((a : RefreshToken) → Memᴰ a ts → a.family_id ≢ f)
    → active_in f ts ≡ 0
active-none f ts h =
    count_where_zero (λ t. t.family_id == f && is_active t) ts
      (All-intro _ ts (λ a m. let other = h a m in ground arith))

mem-revoked :
    (p : RefreshToken → Bool) (now : ℕ) (ts : List RefreshToken) {t : RefreshToken}
    → Memᴰ t (revoke_where p now ts)
    → (s : RefreshToken) × Memᴰ s ts × SameSession s t
unfolding revoke_where
mem-revoked p now ts m =
    let (s, n, e) = mem-map _ ts m in
    (s, n, subst (SameSession s) (sym e) (revoke-SameSession p now s))

module _ (crypto : Crypto) (env : Env) where
  sign_in_row : User → Option DeviceContext → RefreshToken
  sign_in_row u device = refresh_row crypto env u.id device none none

  signs_in-cases :
      (u : User) (device : Option DeviceContext) (db : Database)
      → ((issue_tokens_for_user crypto env u device db).1.refresh_tokens ≡ db.refresh_tokens)
        ⊎ ((issue_tokens_for_user crypto env u device db).1.refresh_tokens
            ≡ sign_in_row u device ∷ db.refresh_tokens)
  unfolding issue_tokens_for_user create_refresh_token sign_in_row
  signs_in-cases u device db = ground arith

  pub signs_in-Steps :
      (u : User) (device : Option DeviceContext) (db : Database)
      → IsNew env db.refresh_tokens
      → TableSteps db.refresh_tokens (issue_tokens_for_user crypto env u device db).1.refresh_tokens
  unfolding sign_in_row refresh_row
  signs_in-Steps u device db new = elim (signs_in-cases u device db) [
    | inl e ↦ rw e done
    | inr e ↦ rw e (
        one (
          adds (sign_in_row u device) (λ a m. (new a m).0) (inl (λ a m. (new a m).1))
            (active-none env.fresh_family db.refresh_tokens (λ a m. (new a m).1)) refl))
  ]

  -- After the claim no row of the family is active.
  claimed-alone :
      (t : RefreshToken) (db : Database)
      → FamiliesValid db.refresh_tokens
      → Memᴰ t db.refresh_tokens
      → is_active t ≡ true
      → active_in t.family_id (claimed env.now t.id db) ≡ 0
  unfolding revoke_row
  claimed-alone t db v m a = omega (
    arith,
    count-revoke_where_sub (λ r. r.id == t.id) env.now (λ r. r.family_id == t.family_id)
        db.refresh_tokens (λ r. refl)
        (All-intro _ db.refresh_tokens (λ r n e.
          (==_iff r.family_id t.family_id).1
            (ap (λ (x : RefreshToken). x.family_id) (v.ids r t n m ((==_iff r.id t.id).0 e))))),
    count_where_pos (λ r. r.id == t.id && is_active r) db.refresh_tokens m (ground arith),
    v.single t.family_id,
  )

  -- The rotated row goes on with the family of the claimed one.
  continues :
      (device : Option DeviceContext) (t : RefreshToken) (u : User) (db : Database)
      → Memᴰ t db.refresh_tokens
      → Users.find_by_id t.user_id db ≡ some u
      → Continues (rotated_row crypto env device t u) (claimed env.now t.id db)
  unfolding refresh_row revoke_where Users.find_by_id
  continues device t u db m f =
      let owner = (find_sound (λ r. r.id == t.user_id && Users.is_live r) db.users f).1 in
      let same = revoke-SameSession (λ r. r.id == t.id) env.now t in
      inr (
        _,
        mem_map _ db.refresh_tokens m,
        sym same.family_id,
        ground arith ∙ sym same.user_id,
        sym same.deadline,
      )

  pub refreshes-Steps :
      (raw : ℕ) (device : Option DeviceContext) (db : Database)
      → FamiliesValid db.refresh_tokens
      → IsNew env db.refresh_tokens
      → TableSteps db.refresh_tokens (refresh crypto env raw device db).1.refresh_tokens
  unfolding refresh_row
  refreshes-Steps raw device db v new =
      refresh_cases crypto env device (λ r. TableSteps db.refresh_tokens r.1.refresh_tokens) raw db
        done (λ t e c. one (revoked_by (λ r. r.family_id == t.family_id) env.now db.refresh_tokens))
        done (λ t e c. one (revoked_by (λ r. r.family_id == t.family_id) env.now db.refresh_tokens))
        (λ t. one (revoked_by (λ r. r.id == t.id) env.now db.refresh_tokens))
        λ t u e c f.
          let m = (found-mem _ db e).0 in
          more (one (revoked_by (λ r. r.id == t.id) env.now db.refresh_tokens)) (
            adds (rotated_row crypto env device t u)
              (λ a n.
                let (s, k, same) = mem-revoked (λ r. r.id == t.id) env.now db.refresh_tokens n in
                λ q. (new s k).0 (sym same.id ∙ q))
              (continues device t u db m f) (claimed-alone t db v m (usable-guards env.now t c).0)
              refl)
