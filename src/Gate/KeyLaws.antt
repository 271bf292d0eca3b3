-- ===== src/Gate/KeyLaws.antt =====
-- The life of an API key: from its creation to its expiry or revocation.
use backend_foundation.Prelude.{
  ℕ, ◌==◌, ◌≡◌, refl, sym, ◌∙◌, ap, inl, inr, true, String, Option, none, some, List, [], ◌∷◌, map,
  Memᴰ, arith, find, find_sound, find-none, is_some, Option-cases, Bool-cases, ==_refl,
  if◌then◌else◌,
}
use backend_foundation.Auth.Data.{Role, Env, key_revoked, key_expired}
use backend_foundation.Auth.Monad.{ok, err, ◌>>=◌}
use backend_foundation.Access.{Permission, place, includes, role_permissions}
use backend_foundation.Gate.Entry.{touched-answer}
use backend_foundation.Gate.Keys.{
  ApiKey, Scope, known, unknown, find_key_by_hash, find_key_for_user, update_key, names, disallowed,
  granted, resolve_scopes, past, create_key, revoke_key, check_key, authenticate,
}
use backend_foundation.Gate.KeySteps.{
  KeyCall, run_keys, NotRevoked, find-map, at_id, at_id-elim, revoked_key,
}
use backend_foundation.Gate.KeyHistory.{made, create_key-cases, run_keys-Lives}

authenticate-answer :
    (hash_key : ℕ → ℕ) (now raw : ℕ) (ks : List ApiKey) (k : ApiKey)
    → find_key_by_hash (hash_key raw) ks ≡ some k
    → (authenticate hash_key now raw ks).0 ≡ check_key now k
unfolding authenticate
authenticate-answer hash_key now raw ks k e =
    rw (e, ◌>>=◌) (touched-answer now (check_key now k) ks)

includes-place :
    (qs : List Permission) (q p : Permission) → place q ≡ place p → includes qs p ≡ includes qs q
includes-place [] q p e = refl
includes-place (r ∷ rs) q p e = ground (arith, e, includes-place rs q p e)

-- Every scope that is granted is a permission of the role.
module _ (role : Role) (p : Permission) where
  requested-allowed :
      (scopes : List Scope)
      → disallowed role scopes ≡ []
      → includes (names scopes) p ≡ true
      → includes (role_permissions role) p ≡ true
  requested-allowed [] none_left h = cc
  requested-allowed (known q ∷ rest) none_left h =
      elim (Bool-cases (includes (role_permissions role) q)) [
        | inl allowed ↦ elim (Bool-cases (place q == place p)) [
          | inl e ↦
              let same_place : place q ≡ place p = ground arith in
              includes-place (role_permissions role) q p same_place ∙ allowed
          | inr e ↦ requested-allowed rest (ground arith) (ground arith)
        ]
        | inr e ↦ cc
      ]
  requested-allowed (unknown text ∷ rest) none_left h = cc

  granted-allowed :
      (requested : List Scope) (left : List Scope) (scopes : List Permission)
      → disallowed role requested ≡ left
      → granted requested left ≡ ok scopes
      → includes scopes p ≡ true
      → includes (role_permissions role) p ≡ true
  granted-allowed requested [] scopes e h inside =
      let same : names requested ≡ scopes = ground arith in
      requested-allowed requested e (ap (λ s. includes s p) same ∙ inside)
  granted-allowed requested (s ∷ left) scopes e h inside = cc

  resolved-allowed :
      (requested : Option (List Scope)) (scopes : List Permission)
      → resolve_scopes role requested ≡ ok scopes
      → includes scopes p ≡ true
      → includes (role_permissions role) p ≡ true
  unfolding resolve_scopes
  resolved-allowed none scopes h inside =
      let same : role_permissions role ≡ scopes = ground arith in
      ap (λ s. includes s p) same ∙ inside
  resolved-allowed (some []) scopes h inside =
      let same : role_permissions role ≡ scopes = ground arith in
      ap (λ s. includes s p) same ∙ inside
  resolved-allowed (some (s ∷ rest)) scopes h inside =
      granted-allowed (s ∷ rest) _ scopes refl h inside

found_first :
    (row : ApiKey) (ks : List ApiKey) (hash : ℕ)
    → row.key_hash ≡ hash
    → find_key_by_hash hash (row ∷ ks) ≡ some row
unfolding find_key_by_hash
found_first row ks hash e = ground (arith, e)

check_key-unrevoked :
    (now : ℕ) (expires_at : Option ℕ) (k : ApiKey)
    → k.revoked_at ≡ none
    → k.expires_at ≡ expires_at
    → check_key now k ≡ (if past now expires_at then err key_expired else ok k)
check_key-unrevoked now expires_at k unrevoked e = rw (unrevoked, e) refl

-- A key that was made is good for its owner until it expires: after any later calls that do not
-- revoke it, whatever they create, change or authenticate, the raw key that `createKey` answered
-- leads to the row with this owner, the tenant of the request and the scopes that were resolved,
-- each of them a permission of the owner's role; from its expiry on it is refused as expired.
pub created_key_lives :
    (hash_key : ℕ → ℕ) (env : Env) (owner_id : ℕ) (role : Role) (name : String)
    (requested : Option (List Scope)) (expires_at : Option ℕ) (ks : List ApiKey) (raw now : ℕ)
    (cs : List KeyCall)
    → (create_key hash_key env owner_id role name requested expires_at ks).0 ≡ ok raw
    → NotRevoked env.fresh_id cs
    → (k : ApiKey) × ((authenticate hash_key now raw (
          run_keys hash_key cs
            (create_key hash_key env owner_id role name requested expires_at ks).1)).0
        ≡ (if past now expires_at then err key_expired else ok k))
      × (k.user_id ≡ owner_id)
      × (k.tenant_id ≡ env.tenant_id)
      × (resolve_scopes role requested ≡ ok k.scopes)
      × ((p : Permission) → includes k.scopes p ≡ true → includes (role_permissions role) p ≡ true)
created_key_lives hash_key env owner_id role name requested expires_at ks raw now cs done
      unrevoked =
    elim (create_key-cases hash_key env owner_id role name requested expires_at ks) [
      | inl (e, refused) ↦ absurd (cc (refused, done))
      | inr (scopes, allowed, new, inserted) ↦
          let row = made hash_key env owner_id role name requested expires_at ks scopes in
          let same_raw : raw ≡ env.fresh_token = cc (inserted, done) in
          let here : find_key_by_hash (hash_key raw) (row ∷ ks) ≡ some row =
            found_first row ks (hash_key raw) (ap hash_key (sym same_raw)) in
          let after = ap (λ t. t.1) inserted in
          let lives = run_keys-Lives hash_key cs (hash_key raw) row (row ∷ ks) here in
          let answer = authenticate-answer hash_key now raw _ lives.row lives.found in
          (
            lives.row,
            ap (λ us. (authenticate hash_key now raw (run_keys hash_key cs us)).0) after
                ∙ answer
                ∙ check_key-unrevoked now expires_at lives.row (lives.unrevoked unrevoked)
                    lives.same.expires_at,
            lives.same.user_id,
            lives.same.tenant_id,
            allowed ∙ ap ok (sym lives.same.scopes),
            λ p inside.
                resolved-allowed role p requested scopes allowed
                  (ap (λ ps. includes ps p) (sym lives.same.scopes) ∙ inside),
          )
    ]

check_key-revoked :
    (now : ℕ) (k : ApiKey) → is_some k.revoked_at ≡ true → check_key now k ≡ err key_revoked
check_key-revoked now k e = ground arith

update_key-there :
    (change : ApiKey → ApiKey) (ks : List ApiKey) (k : ApiKey)
    → Memᴰ k ks
    → update_key k.id change ks ≡ (ok tt, map (at_id k.id change) ks)
unfolding update_key
update_key-there change ks k m = elim (Option-cases (find (λ x. x.id == k.id) ks)) [
  | inl e ↦ absurd (cc (find-none (λ x. x.id == k.id) ks e m, ==_refl k.id))
  | inr (x, e) ↦ ground arith
]

revoked-found :
    (hash_key : ℕ → ℕ) (env : Env) (ks : List ApiKey) (k : ApiKey) (raw : ℕ)
    → find_key_by_hash (hash_key raw) ks ≡ some k
    → find_key_for_user k.id k.user_id ks ≡ some k
    → ((revoke_key env k.user_id k.id ks).0 ≡ ok tt)
      × (l : ApiKey) × (find_key_by_hash (hash_key raw) (revoke_key env k.user_id k.id ks).1
          ≡ some l)
      × (is_some l.revoked_at ≡ true)
unfolding revoke_key find_key_by_hash
revoked-found hash_key env ks k raw found own = elim (Bool-cases (is_some k.revoked_at)) [
  | inl already ↦ rw (own, ◌>>=◌) (rw already (refl, k, found, already))
  | inr active ↦
      let stored = (find_sound (λ x. x.key_hash == hash_key raw) ks found).0 in
      let gone = revoked_key env.now in
      let updated : revoke_key env k.user_id k.id ks ≡ (ok tt, map (at_id k.id gone) ks) =
        rw (own, ◌>>=◌) (rw active (update_key-there gone ks k stored)) in
      rw updated (
        refl,
        at_id k.id gone k,
        find-map (λ x. x.key_hash == hash_key raw) (at_id k.id gone) ks
            (λ x.
              ap (λ h. h == hash_key raw)
                (at_id-elim k.id gone x (λ l. l.key_hash ≡ x.key_hash) (λ e. refl) refl))
            found,
        rw (==_refl k.id) refl,
      )
]

-- A key that its owner has revoked stays refused: after `revokeKey` and any later calls, the raw key
-- is answered with the error for revoked keys. The row is the one of its owner and id.
pub revoked_key_final :
    (hash_key : ℕ → ℕ) (env : Env) (ks : List ApiKey) (k : ApiKey) (raw now : ℕ) (cs : List KeyCall)
    → find_key_by_hash (hash_key raw) ks ≡ some k
    → find_key_for_user k.id k.user_id ks ≡ some k
    → ((revoke_key env k.user_id k.id ks).0 ≡ ok tt)
      × ((authenticate hash_key now raw
            (run_keys hash_key cs (revoke_key env k.user_id k.id ks).1)).0
          ≡ err key_revoked)
revoked_key_final hash_key env ks k raw now cs found own =
    let (answer, l, found_l, revoked) = revoked-found hash_key env ks k raw found own in
    let lives =
      run_keys-Lives hash_key cs (hash_key raw) l (revoke_key env k.user_id k.id ks).1 found_l in
    (
      answer,
      authenticate-answer hash_key now raw _ lives.row lives.found
          ∙ check_key-revoked now lives.row (lives.revoked revoked),
    )
