-- ===== src/Federation/OneTime.antt =====
-- src/modules/auth/sso.service.ts: an exchange code, and the state of a login, are of use once.
use backend_foundation.Prelude.{
  ℕ, ◌≡◌, ◌≢◌, refl, sym, ap, subst, ◌⊎◌, inl, inr, String, Option, none, some, List,
}
use backend_foundation.Auth.Data.{AuthError, Crypto, sso_exchange_invalid, remote_failed}
use backend_foundation.Auth.Monad.{Result, ok, err, continue, or_throw}
use backend_foundation.Auth.Refresh.{TokenPair}
use backend_foundation.Federation.{Federation}
use backend_foundation.Federation.Oauth.{GoogleAnswer, GithubApi}
use backend_foundation.Federation.Sso.{
  Exec, rejected, no_result, get_failed, reply, OneTimeStore, SsoRedis, Oidc, taken, take_exchange,
  consume,
}
use backend_foundation.Federation.Moves.{
  LinkMove, user_added, database_changed, account_added, identity_added,
}
use backend_foundation.Federation.SsoMoves.{
  SsoMove, connections_changed, state_set, state_taken, code_set, code_taken, ClosedSso,
}
use backend_foundation.Federation.Histories.{FederationCall, AllSet, run_federated, run-keeps}

-- What Redis promises of GET and DEL in one transaction: a key whose value was handed out is gone,
-- it stays gone until it is set again, and a key that is gone has no value. `Gone` may depend on
-- the store in any way.
pub record SingleUse {V R : Type 0} (store : OneTimeStore V R) : Type 1 where
  pub Gone : ℕ → R → Type 0
  pub taken_gone :
      (now key : ℕ) (r : R) {v : V}
      → (store.get_del now key r).0 ≡ reply (some v)
      → Gone key (store.get_del now key r).1
  pub gone_empty :
      (now key : ℕ) (r : R) {v : V} → Gone key r → (store.get_del now key r).0 ≢ reply (some v)
  pub gone_taken : (now key other : ℕ) (r : R) → Gone key r → Gone key (store.get_del now other r).1
  pub gone_set :
      (now ttl key other : ℕ) (v : V) (r after : R)
      → other ≢ key
      → store.set now ttl other v r ≡ some after
      → Gone key r
      → Gone key after

module _ {R S V : Type 0} (e : AuthError) (t : Federation R S) where
  -- `takeOnce`, and the error where it gives null.
  abbrev taken_or_throw : Exec V → Result V × Federation R S
  taken_or_throw x = continue (λ found. or_throw found e) (taken x t).0 (taken x t).1

  taken-ok :
      (x : Exec V) {v : V}
      → (taken_or_throw x).0 ≡ ok v
      → (x ≡ reply (some v)) × ((taken_or_throw x).1 ≡ t)
  unfolding taken
  taken-ok rejected h = absurd (cc h)
  taken-ok no_result h = absurd (cc h)
  taken-ok get_failed h = absurd (cc h)
  taken-ok (reply none) h = absurd (cc h)
  taken-ok (reply (some w)) h = (cc h, refl)

  taken-empty :
      (x : Exec V)
      → ((v : V) → x ≢ reply (some v))
      → ((taken_or_throw x).0 ≡ err e) ⊎ ((taken_or_throw x).0 ≡ err remote_failed)
  unfolding taken
  taken-empty rejected h = inr refl
  taken-empty no_result h = inl refl
  taken-empty get_failed h = inl refl
  taken-empty (reply none) h = inl refl
  taken-empty (reply (some v)) h = absurd (h v refl)

module _ {R S : Type 0} (api : SsoRedis R S) where
  module _ (law : SingleUse api.exchange_codes) (code : ℕ) where
    abbrev CodeGone : Federation R S → Federation R S → Type 0
    CodeGone s t = law.Gone code s.exchange_codes → law.Gone code t.exchange_codes

    code_keys-same : (s t : Federation R S) → t.exchange_codes ≡ s.exchange_codes → CodeGone s t
    code_keys-same s t e g = subst (law.Gone code) (sym e) g

    link-CodeGone : (s t : Federation R S) → LinkMove s t → CodeGone s t
    link-CodeGone s t (user_added env email name free e) = code_keys-same s t (cc e)
    link-CodeGone s t (database_changed db same e) = code_keys-same s t (cc e)
    link-CodeGone s t (account_added row free e) = code_keys-same s t (cc e)
    link-CodeGone s t (identity_added row free e) = code_keys-same s t (cc e)

    sso-CodeGone :
        (s t : Federation R S) → SsoMove api (λ k. Unit {0}) (λ k. k ≢ code) s t → CodeGone s t
    sso-CodeGone s t (connections_changed cs e) = code_keys-same s t (cc e)
    sso-CodeGone s t (state_set now ttl key v r h set e) = code_keys-same s t (cc e)
    sso-CodeGone s t (state_taken now key e) = code_keys-same s t (cc e)
    sso-CodeGone s t (code_set now ttl key v r h set e) =
        subst (CodeGone s) (sym e) (law.gone_set now ttl code key v s.exchange_codes r h set)
    sso-CodeGone s t (code_taken now key e) =
        subst (CodeGone s) (sym e) (law.gone_taken now code key s.exchange_codes)

    ClosedSso-CodeGone : ClosedSso api (λ k. Unit {0}) (λ k. k ≢ code) CodeGone
    ClosedSso-CodeGone = record {
      closed = record { stay = λ s g. g; join = λ f h g. h (f g); link = λ m. link-CodeGone _ _ m };
      move = λ m. sso-CodeGone _ _ m;
    }

  consume-ok :
      (now code : ℕ) (s : Federation R S) {pair : TokenPair}
      → (consume (some api) now code s).0 ≡ ok pair
      → ((api.exchange_codes.get_del now code s.exchange_codes).0 ≡ reply (some pair))
        × ((consume (some api) now code s).1.exchange_codes
            ≡ (api.exchange_codes.get_del now code s.exchange_codes).1)
  unfolding consume take_exchange
  consume-ok now code s h =
      let r = api.exchange_codes.get_del now code s.exchange_codes in
      let t : Federation R S = record s { exchange_codes = r.1 } in
      let (replied, same) = taken-ok sso_exchange_invalid t r.0 h in
      (replied, ap (λ (f : Federation R S). f.exchange_codes) same)

  -- An exchange code gives its tokens once: after a call that received them, and any sequence of
  -- calls that issues no code of the same value, the code is refused, or Redis fails. Redis runs a
  -- GET and a DEL in one transaction as it promises.
  pub exchange_code_once :
      (law : SingleUse api.exchange_codes) (verify : Option (String → GoogleAnswer))
      (github_api : Option GithubApi) (base_url : Option String) (oidc : Oidc) (crypto : Crypto)
      (calls : List FederationCall) (now later code : ℕ) (s : Federation R S) {pair : TokenPair}
      → (consume (some api) now code s).0 ≡ ok pair
      → AllSet (λ k. Unit) (λ k. k ≢ code) calls
      → ((consume (some api) later code (
            run_federated api verify github_api base_url oidc crypto calls
              (consume (some api) now code s).1)).0
          ≡ err sso_exchange_invalid)
        ⊎ ((consume (some api) later code (
              run_federated api verify github_api base_url oidc crypto calls
                (consume (some api) now code s).1)).0
            ≡ err remote_failed)
  unfolding consume take_exchange
  exchange_code_once law verify github_api base_url oidc crypto calls now later code s h fresh =
      let s1 = (consume (some api) now code s).1 in
      let t = run_federated api verify github_api base_url oidc crypto calls s1 in
      let (replied, same) = consume-ok now code s h in
      let gone : law.Gone code s1.exchange_codes =
        subst (law.Gone code) (sym same) (law.taken_gone now code s.exchange_codes replied) in
      let gone_later : law.Gone code t.exchange_codes =
        run-keeps api verify github_api base_url oidc crypto (λ k. Unit) (λ k. k ≢ code)
          (CodeGone law code) (ClosedSso-CodeGone law code) calls fresh s1 gone in
      let r = api.exchange_codes.get_del later code t.exchange_codes in
      taken-empty sso_exchange_invalid (record t { exchange_codes = r.1 }) r.0
        (λ v. law.gone_empty later code t.exchange_codes gone_later)
