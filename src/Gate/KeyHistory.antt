-- ===== src/Gate/KeyHistory.antt =====
-- What a history of operations on API keys makes of one row.
use backend_foundation.Prelude.{
  ℕ, ◌≡◌, refl, sym, ◌∙◌, ap, subst, ◌⊎◌, inl, inr, true, String, Option, none, some, List, [], ◌∷◌,
  arith, is_some, Option-cases, Bool-cases,
}
use backend_foundation.Auth.Data.{Role, Env, AuthError, expiry_not_future, unique_violation}
use backend_foundation.Auth.Monad.{Result, ok, err}
use backend_foundation.Access.{Permission}
use backend_foundation.Gate.Keys.{
  ApiKey, Scope, find_key_by_hash, insert_key, resolve_scopes, past, new_key, create_key,
  revoke_key, update_rate_limit_override, authenticate,
}
use backend_foundation.Gate.KeySteps.{
  KeyCall, creates, revokes, overrides, authenticates, perform_key, run_keys, NotRevoked, SameKey,
  SameKey-refl, SameKey-trans, SameKey-revoked, KeyChange, leaves, inserts, updates,
  KeyChange-Moved, at_id-elim, revoked_key, harmless, revoke_key-cases, override-cases,
  authenticate-cases,
}

module _ (hash_key : ℕ → ℕ) where
  module _ (env : Env) (owner_id : ℕ) (role : Role) (name : String)
      (requested : Option (List Scope)) (expires_at : Option ℕ) (ks : List ApiKey) where
    abbrev pub made : List Permission → ApiKey
    made scopes = new_key hash_key env owner_id name expires_at scopes

    abbrev creation : Result ℕ × List ApiKey
    creation = create_key hash_key env owner_id role name requested expires_at ks

    abbrev Refused : Type 0
    Refused = (e : AuthError) × (creation ≡ (err e, ks))

    abbrev Inserted : Type 0
    Inserted =
        (scopes : List Permission) × (resolve_scopes role requested ≡ ok scopes)
        × (find_key_by_hash (hash_key env.fresh_token) ks ≡ none)
        × (creation ≡ (ok env.fresh_token, made scopes ∷ ks))

    granted-cases :
        (r : Result (List Permission)) → resolve_scopes role requested ≡ r → Refused ⊎ Inserted
    unfolding create_key insert_key find_key_by_hash
    granted-cases (err e) is = inl (e, ground (arith, is))
    granted-cases (ok scopes) is = elim (Bool-cases (past env.now expires_at)) [
      | inl late ↦ inl (expiry_not_future, ground (arith, is))
      | inr early ↦ elim (Option-cases (find_key_by_hash (hash_key env.fresh_token) ks)) [
        | inl new ↦ inr (scopes, is, new, ground (arith, is))
        | inr (old, taken) ↦ inl (unique_violation, ground (arith, is))
      ]
    ]

    pub create_key-cases : Refused ⊎ Inserted
    create_key-cases = granted-cases (resolve_scopes role requested) refl

    creates-KeyChange :
        KeyChange (creates env owner_id role name requested expires_at) ks creation.1
    creates-KeyChange = elim create_key-cases [
      | inl (e, is) ↦ leaves (ap (λ p. p.1) is)
      | inr (scopes, allowed, new, is) ↦ inserts (made scopes) new (ap (λ p. p.1) is)
    ]

  revokes-KeyChange :
      (env : Env) (user_id id : ℕ) (ks : List ApiKey)
      → KeyChange (revokes env user_id id) ks (revoke_key env user_id id ks).1
  revokes-KeyChange env user_id id ks = elim (revoke_key-cases env user_id id ks) [
    | inl e ↦ leaves e
    | inr e ↦
        updates id (revoked_key env.now)
          (λ k.
            at_id-elim id (revoked_key env.now) k (SameKey k) (λ e'. SameKey-revoked env.now k)
              (SameKey-refl k))
          (λ k r.
            at_id-elim id (revoked_key env.now) k (λ l. is_some l.revoked_at ≡ true) (λ e'. refl) r)
          (λ k n.
            at_id-elim id (revoked_key env.now) k (λ l. l.revoked_at ≡ k.revoked_at)
              (λ e'. absurd (n.0 (sym e'))) refl)
          e
  ]

  overrides-KeyChange :
      (id : ℕ) (value : Option ℕ) (ks : List ApiKey)
      → KeyChange (overrides id value) ks (update_rate_limit_override id value ks).1
  overrides-KeyChange id value ks = elim (override-cases id value ks) [
    | inl e ↦ leaves e
    | inr e ↦
        harmless _ id (λ x. record x { rate_limit_override = value })
          (λ k. record {
            id = refl;
            user_id = refl;
            tenant_id = refl;
            key_hash = refl;
            scopes = refl;
            expires_at = refl;
          })
          (λ k. refl) e
  ]

  authenticates-KeyChange :
      (now raw : ℕ) (ks : List ApiKey)
      → KeyChange (authenticates now raw) ks (authenticate hash_key now raw ks).1
  authenticates-KeyChange now raw ks = elim (authenticate-cases hash_key now raw ks) [
    | inl e ↦ leaves e
    | inr (id, e) ↦
        harmless _ id (λ x. record x { last_used_at = some now })
          (λ k. record {
            id = refl;
            user_id = refl;
            tenant_id = refl;
            key_hash = refl;
            scopes = refl;
            expires_at = refl;
          })
          (λ k. refl) e
  ]

  perform-KeyChange : (c : KeyCall) (ks : List ApiKey) → KeyChange c ks (perform_key hash_key c ks)
  unfolding perform_key
  perform-KeyChange (creates env owner_id role name requested expires_at) ks =
      creates-KeyChange env owner_id role name requested expires_at ks
  perform-KeyChange (revokes env user_id id) ks = revokes-KeyChange env user_id id ks
  perform-KeyChange (overrides id value) ks = overrides-KeyChange id value ks
  perform-KeyChange (authenticates now raw) ks = authenticates-KeyChange now raw ks

-- What becomes of the row over a history.
pub record Lives (hash : ℕ) (k : ApiKey) (cs : List KeyCall) (us : List ApiKey) : Type 0 where
  pub row : ApiKey
  pub found : find_key_by_hash hash us ≡ some row
  pub same : SameKey k row
  pub revoked : is_some k.revoked_at ≡ true → is_some row.revoked_at ≡ true
  pub unrevoked : NotRevoked k.id cs → row.revoked_at ≡ k.revoked_at

NotRevoked-split :
    (id : ℕ) (c : KeyCall) (cs : List KeyCall)
    → NotRevoked id (c ∷ cs)
    → NotRevoked id (c ∷ []) × NotRevoked id cs
NotRevoked-split id (creates env owner_id role name requested expires_at) cs n = (tt, n)
NotRevoked-split id (revokes env user_id other) cs n = ((n.0, tt), n.1)
NotRevoked-split id (overrides other value) cs n = (tt, n)
NotRevoked-split id (authenticates now raw) cs n = (tt, n)

pub run_keys-Lives :
    (hash_key : ℕ → ℕ) (cs : List KeyCall) (hash : ℕ) (k : ApiKey) (ks : List ApiKey)
    → find_key_by_hash hash ks ≡ some k
    → Lives hash k cs (run_keys hash_key cs ks)
unfolding run_keys
run_keys-Lives hash_key [] hash k ks found = record {
  row = k;
  found = found;
  same = SameKey-refl k;
  revoked = λ r. r;
  unrevoked = λ n. refl;
}
run_keys-Lives hash_key (c ∷ cs) hash k ks found =
    let m =
      KeyChange-Moved c hash k ks (perform_key hash_key c ks) found
        (perform-KeyChange hash_key c ks) in
    let l = run_keys-Lives hash_key cs hash m.row (perform_key hash_key c ks) m.found in
    record {
      row = l.row;
      found = l.found;
      same = SameKey-trans k m.row l.row m.same l.same;
      revoked = λ r. l.revoked (m.revoked r);
      unrevoked = λ n.
          let (now, later) = NotRevoked-split k.id c cs n in
          l.unrevoked (subst (λ i. NotRevoked i cs) (sym m.same.id) later) ∙ m.unrevoked now;
    }
