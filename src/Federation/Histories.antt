-- ===== src/Federation/Histories.antt =====
-- src/modules/auth/oauth.service.ts and sso.service.ts: what holds over any sequence of their calls.
use backend_foundation.Prelude.{ℕ, String, Option, some, List, [], ◌∷◌}
use backend_foundation.Auth.Data.{Env, Crypto}
use backend_foundation.Federation.{Federation}
use backend_foundation.Federation.Oauth.{
  GoogleAnswer, GithubApi, login_with_google, login_with_github,
}
use backend_foundation.Federation.Sso.{
  SsoRedis, Oidc, Draw, CallbackQuery, SsoInput, upsert, build_authorization_url, handle_callback,
  consume,
}
use backend_foundation.Federation.Moves.{across-google, across-github}
use backend_foundation.Federation.SsoMoves.{ClosedSso, across-upsert}
use backend_foundation.Federation.SsoCalls.{across-authorize, across-callback, across-consume}

pub data FederationCall : Type 0 where
  google_login : Env → String → FederationCall
  github_login : Env → String → FederationCall
  sso_start : ℕ → Draw → String → FederationCall
  sso_callback : Env → ℕ → String → CallbackQuery → FederationCall
  sso_consume : ℕ → ℕ → FederationCall
  sso_upsert : String → SsoInput → FederationCall

-- The state keys and the exchange codes that a call may set pass a test.
abbrev pub Sets : (ℕ → Type 0) → (ℕ → Type 0) → FederationCall → Type 0
Sets States Codes (sso_start now draw slug) = States draw.state
Sets States Codes (sso_callback env code slug query) = Codes code
Sets States Codes _ = Unit

abbrev pub AllSet : (ℕ → Type 0) → (ℕ → Type 0) → List FederationCall → Type 0
AllSet States Codes [] = Unit
AllSet States Codes (c ∷ cs) = Sets States Codes c × AllSet States Codes cs

module _ {R S : Type 0} (api : SsoRedis R S) (verify : Option (String → GoogleAnswer))
    (github_api : Option GithubApi) (base_url : Option String) (oidc : Oidc) (crypto : Crypto) where
  unfoldable pub perform_federated : FederationCall → Federation R S → Federation R S
  perform_federated (google_login env id_token) s =
      (login_with_google verify crypto env id_token s).1
  perform_federated (github_login env code) s = (login_with_github github_api crypto env code s).1
  perform_federated (sso_start now draw slug) s =
      (build_authorization_url (some api) base_url oidc crypto now draw slug s).1
  perform_federated (sso_callback env code slug query) s =
      (handle_callback (some api) base_url oidc crypto env code slug query s).1
  perform_federated (sso_consume now code) s = (consume (some api) now code s).1
  perform_federated (sso_upsert slug input) s = (upsert crypto slug input s).1

  unfoldable pub run_federated : List FederationCall → Federation R S → Federation R S
  unfolding perform_federated
  run_federated [] s = s
  run_federated (c ∷ cs) s = run_federated cs (perform_federated c s)

  module _ (States Codes : ℕ → Type 0) (Q : Federation R S → Federation R S → Type 0)
      (c : ClosedSso api States Codes Q) where
    perform-keeps :
        (call : FederationCall)
        → Sets States Codes call
        → (s : Federation R S) → Q s (perform_federated call s)
    unfolding perform_federated
    perform-keeps (google_login env id_token) h s =
        (across-google Q c.closed verify crypto env id_token).at s
    perform-keeps (github_login env code) h s =
        (across-github Q c.closed github_api crypto env code).at s
    perform-keeps (sso_start now draw slug) h s =
        (across-authorize api States Codes Q c base_url oidc crypto now draw slug h).at s
    perform-keeps (sso_callback env code slug query) h s =
        (across-callback api States Codes Q c base_url oidc crypto env code slug query h).at s
    perform-keeps (sso_consume now code) h s = (across-consume api States Codes Q c now code).at s
    perform-keeps (sso_upsert slug input) h s =
        (across-upsert api States Codes Q c crypto slug input).at s

    pub run-keeps :
        (calls : List FederationCall)
        → AllSet States Codes calls
        → (s : Federation R S) → Q s (run_federated calls s)
    unfolding run_federated
    run-keeps [] h s = c.closed.stay s
    run-keeps (call ∷ calls) h s =
        c.closed.join (perform-keeps call h.0 s) (run-keeps calls h.1 (perform_federated call s))

-- Where any key may be set, no call is excluded.
pub AllSet-any : (calls : List FederationCall) → AllSet (λ k. Unit {0}) (λ k. Unit {0}) calls
AllSet-any [] = tt
AllSet-any (google_login env id_token ∷ cs) = (tt, AllSet-any cs)
AllSet-any (github_login env code ∷ cs) = (tt, AllSet-any cs)
AllSet-any (sso_start now draw slug ∷ cs) = (tt, AllSet-any cs)
AllSet-any (sso_callback env code slug query ∷ cs) = (tt, AllSet-any cs)
AllSet-any (sso_consume now code ∷ cs) = (tt, AllSet-any cs)
AllSet-any (sso_upsert slug input ∷ cs) = (tt, AllSet-any cs)
