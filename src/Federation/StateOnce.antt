-- ===== src/Federation/StateOnce.antt =====
-- src/modules/auth/sso.service.ts: the state of a login at an identity provider is of use once.
use backend_foundation.Prelude.{
  ℕ, ◌≡◌, ◌≢◌, refl, sym, subst, String, Option, none, some, List, Option-cases, inl, inr,
}
use backend_foundation.Auth.Data.{Env, Crypto, sso_state_invalid}
use backend_foundation.Auth.Monad.{M, Result, ok, continue, or_throw}
use backend_foundation.Auth.Refresh.{non_empty}
use backend_foundation.Federation.{Federation}
use backend_foundation.Federation.Oauth.{GoogleAnswer, GithubApi}
use backend_foundation.Federation.Sso.{
  StateData, Exec, rejected, no_result, get_failed, reply, SsoRedis, Oidc, CallbackQuery, taken,
  take_state, callback_with_state, handle_callback,
}
use backend_foundation.Federation.Moves.{
  LinkMove, user_added, database_changed, account_added, identity_added,
}
use backend_foundation.Federation.SsoMoves.{
  SsoMove, connections_changed, state_set, state_taken, code_set, code_taken, ClosedSso,
}
use backend_foundation.Federation.SsoCalls.{across-with_state}
use backend_foundation.Federation.Histories.{FederationCall, AllSet, run_federated, run-keeps}
use backend_foundation.Federation.OneTime.{SingleUse}

module _ {R S : Type 0} (api : SsoRedis R S) where
  module _ (law : SingleUse api.states) (state : ℕ) where
    abbrev StateGone : Federation R S → Federation R S → Type 0
    StateGone s t = law.Gone state s.states → law.Gone state t.states

    state_keys-same : (s t : Federation R S) → t.states ≡ s.states → StateGone s t
    state_keys-same s t e g = subst (law.Gone state) (sym e) g

    link-StateGone : (s t : Federation R S) → LinkMove s t → StateGone s t
    link-StateGone s t (user_added env email name free e) = state_keys-same s t (cc e)
    link-StateGone s t (database_changed db same e) = state_keys-same s t (cc e)
    link-StateGone s t (account_added row free e) = state_keys-same s t (cc e)
    link-StateGone s t (identity_added row free e) = state_keys-same s t (cc e)

    sso-StateGone :
        (s t : Federation R S) → SsoMove api (λ k. k ≢ state) (λ k. Unit {0}) s t → StateGone s t
    sso-StateGone s t (connections_changed cs e) = state_keys-same s t (cc e)
    sso-StateGone s t (state_set now ttl key v r h set e) =
        subst (StateGone s) (sym e) (law.gone_set now ttl state key v s.states r h set)
    sso-StateGone s t (state_taken now key e) =
        subst (StateGone s) (sym e) (law.gone_taken now state key s.states)
    sso-StateGone s t (code_set now ttl key v r h set e) = state_keys-same s t (cc e)
    sso-StateGone s t (code_taken now key e) = state_keys-same s t (cc e)

    ClosedSso-StateGone : ClosedSso api (λ k. k ≢ state) (λ k. Unit {0}) StateGone
    ClosedSso-StateGone = record {
      closed = record {
        stay = λ s g. g;
        join = λ f h g. h (f g);
        link = λ m. link-StateGone _ _ m;
      };
      move = λ m. sso-StateGone _ _ m;
    }

  module _ (base_url : Option String) (oidc : Oidc) (crypto : Crypto) (env : Env) (code : ℕ)
      (slug : String) (query : CallbackQuery) (s : Federation R S) where
    abbrev answered : Exec StateData × R
    answered = api.states.get_del env.now query.state s.states

    callback-taken :
        {given : String} {kept : StateData}
        → non_empty query.error ≡ none
        → non_empty query.code ≡ some given
        → answered.0 ≡ reply (some kept)
        → handle_callback (some api) base_url oidc crypto env code slug query s
          ≡ callback_with_state base_url oidc crypto api env code slug given query.state kept
              (record s { states = answered.1 })
    unfolding handle_callback take_state taken
    callback-taken e f g = rw (e, f, g) refl

    -- What a callback that succeeds has checked before it asks for the connection.
    pub record Entered (result : ℕ) : Type 0 where
      pub given : String
      pub kept : StateData
      pub no_error : non_empty query.error ≡ none
      pub has_code : non_empty query.code ≡ some given
      pub state_known : answered.0 ≡ reply (some kept)
      pub rest :
          handle_callback (some api) base_url oidc crypto env code slug query s
          ≡ callback_with_state base_url oidc crypto api env code slug given query.state kept
              (record s { states = answered.1 })

    taken-some :
        (x : Exec StateData) (t : Federation R S) (f : StateData → M (Federation R S) ℕ) {n : ℕ}
        → (continue
            (λ found after.
              continue f
                (or_throw found sso_state_invalid after).0
                (or_throw found sso_state_invalid after).1)
            (taken x t).0
            (taken x t).1).0
          ≡ ok n
        → (v : StateData) × (x ≡ reply (some v))
    unfolding taken
    taken-some rejected t f h = absurd (cc h)
    taken-some no_result t f h = absurd (cc h)
    taken-some get_failed t f h = absurd (cc h)
    taken-some (reply none) t f h = absurd (cc h)
    taken-some (reply (some v)) t f h = (v, refl)

    pub callback-enters :
        {n : ℕ}
        → (handle_callback (some api) base_url oidc crypto env code slug query s).0 ≡ ok n
        → Entered n
    unfolding handle_callback take_state
    callback-enters {n} h = elim (Option-cases (non_empty query.error)) [
      | inr (x, e) ↦ absurd (cc (rw e at h))
      | inl e ↦ elim (Option-cases (non_empty query.code)) [
        | inl f ↦ absurd (cc (rw (e, f) at h))
        | inr (given, f) ↦
            let (kept, g) = taken-some answered.0 _ _ (rw (e, f) at h) in
            record {
              given = given;
              kept = kept;
              no_error = e;
              has_code = f;
              state_known = g;
              rest = callback-taken e f g;
            }
      ]
    ]

  -- The state of a login is used up by the first callback that reads it, however that callback
  -- ends: after it, and any sequence of calls that starts no login with the same state, no callback
  -- with that state succeeds, for whatever tenant. Redis runs a GET and a DEL in one transaction as
  -- it promises.
  pub state_once :
      (law : SingleUse api.states) (verify : Option (String → GoogleAnswer))
      (github_api : Option GithubApi) (base_url : Option String) (oidc : Oidc) (crypto : Crypto)
      (env : Env) (code : ℕ) (slug : String) (query : CallbackQuery) (s : Federation R S)
      {given : String} {kept : StateData} (calls : List FederationCall) (env' : Env) (code' : ℕ)
      (slug' : String) (query' : CallbackQuery) (n : ℕ)
      → non_empty query.error ≡ none
      → non_empty query.code ≡ some given
      → (api.states.get_del env.now query.state s.states).0 ≡ reply (some kept)
      → AllSet (λ k. k ≢ query.state) (λ k. Unit) calls
      → query'.state ≡ query.state
      → (handle_callback (some api) base_url oidc crypto env' code' slug' query' (
          run_federated api verify github_api base_url oidc crypto calls
            (handle_callback (some api) base_url oidc crypto env code slug query s).1)).0
        ≢ ok n
  state_once law verify github_api base_url oidc crypto env code slug query s {given} {kept} calls
        env' code' slug' query' n e f g fresh same h =
      let s1 = (handle_callback (some api) base_url oidc crypto env code slug query s).1 in
      let t = run_federated api verify github_api base_url oidc crypto calls s1 in
      let closed = ClosedSso-StateGone law query.state in
      let r = api.states.get_del env.now query.state s.states in
      let taken_out : Federation R S = record s { states = r.1 } in
      let gone : law.Gone query.state s1.states =
        subst (λ (x : Result ℕ × Federation R S). law.Gone query.state x.1.states)
          (sym (callback-taken base_url oidc crypto env code slug query s e f g))
          ((across-with_state api _ _ _ closed base_url oidc crypto env code slug given query.state
              kept tt).at
            taken_out (law.taken_gone env.now query.state s.states g)) in
      let gone_later : law.Gone query.state t.states =
        run-keeps api verify github_api base_url oidc crypto _ _ _ closed calls fresh s1 gone in
      let entered = callback-enters base_url oidc crypto env' code' slug' query' t h in
      law.gone_empty env'.now query'.state t.states
        (subst (λ k. law.Gone k t.states) (sym same) gone_later) entered.state_known
