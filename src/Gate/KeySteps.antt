-- ===== src/Gate/KeySteps.antt =====
-- How one operation on API keys (src/modules/api-keys) changes the table.
use backend_foundation.Prelude.{
  ℕ, ◌==◌, ◌≡◌, ◌≢◌, refl, ◌∙◌, ap, subst, ◌⊎◌, inl, inr, true, Bool, ◌&&◌, String, Option, none,
  some, List, [], ◌∷◌, map, arith, find, find_sound, is_some, Option-cases, Bool-cases,
  if◌then◌else◌,
}
use backend_foundation.Auth.Data.{Role, Env}
use backend_foundation.Auth.Monad.{Result, ok, err, ◌>>=◌}
use backend_foundation.Gate.Keys.{
  ApiKey, Scope, find_key_by_hash, find_key_by_id, find_key_for_user, update_key, create_key,
  revoke_key, update_rate_limit_override, check_key, touched, authenticate, revoke_unless_revoked,
}

pub data KeyCall : Type 0 where
  creates : Env → ℕ → Role → String → Option (List Scope) → Option ℕ → KeyCall
  revokes : Env → ℕ → ℕ → KeyCall
  overrides : ℕ → Option ℕ → KeyCall
  authenticates : ℕ → ℕ → KeyCall

unfoldable pub perform_key : (ℕ → ℕ) → KeyCall → List ApiKey → List ApiKey
perform_key hash_key (creates env owner_id role name requested expires_at) ks =
    (create_key hash_key env owner_id role name requested expires_at ks).1
perform_key hash_key (revokes env user_id id) ks = (revoke_key env user_id id ks).1
perform_key hash_key (overrides id value) ks = (update_rate_limit_override id value ks).1
perform_key hash_key (authenticates now raw) ks = (authenticate hash_key now raw ks).1

unfoldable pub run_keys : (ℕ → ℕ) → List KeyCall → List ApiKey → List ApiKey
unfolding perform_key
run_keys hash_key [] ks = ks
run_keys hash_key (c ∷ cs) ks = run_keys hash_key cs (perform_key hash_key c ks)

-- No call revokes this key.
abbrev pub NotRevoked : ℕ → List KeyCall → Type 0
NotRevoked id [] = Unit
NotRevoked id (revokes env user_id other ∷ cs) = (other ≢ id) × NotRevoked id cs
NotRevoked id (_ ∷ cs) = NotRevoked id cs

-- What no call changes of a row.
pub record SameKey (k l : ApiKey) : Type 0 where
  pub id : l.id ≡ k.id
  pub user_id : l.user_id ≡ k.user_id
  pub tenant_id : l.tenant_id ≡ k.tenant_id
  pub key_hash : l.key_hash ≡ k.key_hash
  pub scopes : l.scopes ≡ k.scopes
  pub expires_at : l.expires_at ≡ k.expires_at

pub SameKey-refl : (k : ApiKey) → SameKey k k
SameKey-refl k = record {
  id = refl;
  user_id = refl;
  tenant_id = refl;
  key_hash = refl;
  scopes = refl;
  expires_at = refl;
}

pub SameKey-trans : (k l m : ApiKey) → SameKey k l → SameKey l m → SameKey k m
SameKey-trans k l m a b = record {
  id = b.id ∙ a.id;
  user_id = b.user_id ∙ a.user_id;
  tenant_id = b.tenant_id ∙ a.tenant_id;
  key_hash = b.key_hash ∙ a.key_hash;
  scopes = b.scopes ∙ a.scopes;
  expires_at = b.expires_at ∙ a.expires_at;
}

pub find-map :
    {A : Type 0} (p : A → Bool) (f : A → A) (xs : List A) {a : A}
    → ((x : A) → p (f x) ≡ p x)
    → find p xs ≡ some a
    → find p (map f xs) ≡ some (f a)
find-map p f [] same e = cc
find-map p f (x ∷ xs) {a} same e = elim (Bool-cases (p x)) [
  | inl t ↦ let same_item : x ≡ a = ground arith in ground (arith, same x, ap f same_item)
  | inr t ↦
      let later : find p xs ≡ some a = ground arith in
      ground (arith, same x, find-map p f xs same later)
]

-- How a call changes the table.
abbrev pub at_id : ℕ → (ApiKey → ApiKey) → ApiKey → ApiKey
at_id id change k = if k.id == id then change k else k

pub data KeyChange (c : KeyCall) (ks us : List ApiKey) : Type 0 where
  leaves : us ≡ ks → KeyChange c ks us
  inserts :
      (row : ApiKey) → find_key_by_hash row.key_hash ks ≡ none → us ≡ row ∷ ks → KeyChange c ks us
  updates :
      (id : ℕ) (change : ApiKey → ApiKey)
      → ((k : ApiKey) → SameKey k (at_id id change k))
      → ((k : ApiKey) → is_some k.revoked_at ≡ true → is_some (at_id id change k).revoked_at ≡ true)
      → ((k : ApiKey) → NotRevoked k.id (c ∷ []) → (at_id id change k).revoked_at ≡ k.revoked_at)
      → us ≡ map (at_id id change) ks
      → KeyChange c ks us

-- What becomes of the row that a hash leads to.
pub record Moved (c : KeyCall) (hash : ℕ) (k : ApiKey) (us : List ApiKey) : Type 0 where
  pub row : ApiKey
  pub found : find_key_by_hash hash us ≡ some row
  pub same : SameKey k row
  pub revoked : is_some k.revoked_at ≡ true → is_some row.revoked_at ≡ true
  pub unrevoked : NotRevoked k.id (c ∷ []) → row.revoked_at ≡ k.revoked_at

pub KeyChange-Moved :
    (c : KeyCall) (hash : ℕ) (k : ApiKey) (ks us : List ApiKey)
    → find_key_by_hash hash ks ≡ some k
    → KeyChange c ks us
    → Moved c hash k us
unfolding find_key_by_hash
KeyChange-Moved c hash k ks us found (leaves e) = record {
  row = k;
  found = rw e found;
  same = SameKey-refl k;
  revoked = λ r. r;
  unrevoked = λ n. refl;
}
KeyChange-Moved c hash k ks us found (inserts row new e) = record {
  row = k;
  found = rw e (elim (Bool-cases (row.key_hash == hash)) [
    | inl t ↦
        let same_hash : row.key_hash ≡ hash = ground arith in absurd (cc (new, same_hash, found))
    | inr t ↦ rw t found
  ]);
  same = SameKey-refl k;
  revoked = λ r. r;
  unrevoked = λ n. refl;
}
KeyChange-Moved c hash k ks us found (updates id change same stays others e) = record {
  row = at_id id change k;
  found = rw e (
      find-map (λ x. x.key_hash == hash) (at_id id change) ks
        (λ x. ap (λ h. h == hash) (same x).key_hash) found);
  same = same k;
  revoked = stays k;
  unrevoked = others k;
}

pub at_id-elim :
    (id : ℕ) (change : ApiKey → ApiKey) (k : ApiKey) (Q : ApiKey → Type 0)
    → (k.id ≡ id → Q (change k))
    → Q k
    → Q (at_id id change k)
at_id-elim id change k Q at other = elim (Bool-cases (k.id == id)) [
  | inl e ↦ let same_id : k.id ≡ id = ground arith in rw e (at same_id)
  | inr e ↦ rw e other
]

abbrev pub revoked_key : ℕ → ApiKey → ApiKey
revoked_key now k = record k { revoked_at = some now }

pub SameKey-revoked : (now : ℕ) (k : ApiKey) → SameKey k (revoked_key now k)
SameKey-revoked now k = record {
  id = refl;
  user_id = refl;
  tenant_id = refl;
  key_hash = refl;
  scopes = refl;
  expires_at = refl;
}

-- A change of a column that no lookup and no check of a key reads.
pub harmless :
    (c : KeyCall) (id : ℕ) (change : ApiKey → ApiKey) {ks us : List ApiKey}
    → ((k : ApiKey) → SameKey k (change k))
    → ((k : ApiKey) → (change k).revoked_at ≡ k.revoked_at)
    → us ≡ map (at_id id change) ks
    → KeyChange c ks us
harmless c id change same kept e =
    updates id change (λ k. at_id-elim id change k (SameKey k) (λ e'. same k) (SameKey-refl k))
      (λ k r.
        at_id-elim id change k (λ l. is_some l.revoked_at ≡ true) (λ e'. ap is_some (kept k) ∙ r) r)
      (λ k n. at_id-elim id change k (λ l. l.revoked_at ≡ k.revoked_at) (λ e'. kept k) refl) e

abbrev Revokes : Env → ℕ → List ApiKey → List ApiKey → Type 0
Revokes env id ks us = (us ≡ ks) ⊎ (us ≡ map (at_id id (revoked_key env.now)) ks)

revoke_unless_revoked-cases :
    (env : Env) (k : ApiKey) (ks : List ApiKey)
    → Revokes env k.id ks (revoke_unless_revoked env k ks).1
unfolding revoke_key update_key
revoke_unless_revoked-cases env k ks = ground arith

pub revoke_key-cases :
    (env : Env) (user_id id : ℕ) (ks : List ApiKey)
    → Revokes env id ks (revoke_key env user_id id ks).1
unfolding revoke_key find_key_for_user
revoke_key-cases env user_id id ks = elim (Option-cases (find_key_for_user id user_id ks)) [
  | inl e ↦ inl (ground arith)
  | inr (k, e) ↦
      let held = (find_sound (λ x. x.id == id && x.user_id == user_id) ks e).1 in
      let same_id : k.id ≡ id = ground (arith, held) in
      rw (e, ◌>>=◌)
        (subst (λ n. Revokes env n ks (revoke_unless_revoked env k ks).1) same_id
          (revoke_unless_revoked-cases env k ks))
]

pub override-cases :
    (id : ℕ) (value : Option ℕ) (ks : List ApiKey)
    → ((update_rate_limit_override id value ks).1 ≡ ks)
      ⊎ ((update_rate_limit_override id value ks).1
          ≡ map (at_id id (λ x. record x { rate_limit_override = value })) ks)
unfolding update_rate_limit_override update_key find_key_by_id
override-cases id value ks = ground arith

abbrev Touches : ℕ → List ApiKey → List ApiKey → Type 0
Touches now ks us =
    (us ≡ ks) ⊎ ((id : ℕ) × (us ≡ map (at_id id (λ x. record x { last_used_at = some now })) ks))

touched-cases :
    (now : ℕ) (r : Result ApiKey) (ks : List ApiKey) → Touches now ks (touched now r ks).1
touched-cases now (ok k) ks = inr (k.id, refl)
touched-cases now (err e) ks = inl refl

pub authenticate-cases :
    (hash_key : ℕ → ℕ) (now raw : ℕ) (ks : List ApiKey)
    → Touches now ks (authenticate hash_key now raw ks).1
unfolding authenticate
authenticate-cases hash_key now raw ks = elim (Option-cases (find_key_by_hash (hash_key raw) ks)) [
  | inl e ↦ inl (ground arith)
  | inr (k, e) ↦ rw (e, ◌>>=◌) (touched-cases now (check_key now k) ks)
]
