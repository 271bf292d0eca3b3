-- ===== src/Gate/Logout.antt =====
-- What a logout means for `authMiddleware` (src/shared/middlewares/auth.middleware.ts).
use backend_foundation.Prelude.{
  ℕ, ◌*◌, ◌<◌, ◌≡◌, ◌≢◌, refl, sym, ap, ◌∙◌, subst, false, String, Option, none, some, List, Memᴰ,
  arith,
}
use backend_foundation.Auth.Data.{Role, Database, Env, Crypto}
use backend_foundation.Auth.Monad.{ok}
use backend_foundation.Auth.Repository.{is_blacklisted}
use backend_foundation.Auth.Sessions.{logout}
use backend_foundation.Gate.Request.{
  JwtPayload, access_payload, challenge_payload, Verified, verified, expired, invalid, jwt,
  Surroundings, GateState, Identity, token_jti, verify_token, accept_payload, auth_middleware,
  or_previous,
}
use backend_foundation.Gate.Entry.{identify-ok}
use backend_foundation.Gate.TenantEntry.{token-accepted}
use backend_foundation.Gate.Blacklist.{
  logged_out, logs_out-adds, Moment, after, CleansBefore, after-mem, mem-is_blacklisted,
}

-- What `jsonwebtoken` promises of `verify`: a token has one payload, and it has not expired by the
-- time that it is verified.
pub record JwtLaws (verify : ℕ → ℕ → ℕ → Verified) : Type 0 where
  pub one_payload :
      (secret secret' now now' token : ℕ) (p q : JwtPayload)
      → verify secret now token ≡ verified p
      → verify secret' now' token ≡ verified q
      → p ≡ q
  pub unexpired :
      (secret now token id : ℕ) (email : String) (role : Role) (jti exp : ℕ)
      → verify secret now token ≡ verified (access_payload id email role jti exp)
      → now < exp * 1000

module _ {R : Type 0} (out : Surroundings R) (laws : JwtLaws out.jwt_verify) where
  or_previous-from :
      (old : Option ℕ) (now token : ℕ) (p : JwtPayload) (v : Verified)
      → out.jwt_verify out.secret now token ≡ v
      → or_previous out old now token v ≡ verified p
      → (secret : ℕ) × (out.jwt_verify secret now token ≡ verified p)
  or_previous-from none now token p v e h = (out.secret, e ∙ h)
  or_previous-from (some old) now token p (verified q) e h = (out.secret, e ∙ h)
  or_previous-from (some old) now token p expired e h = (old, h)
  or_previous-from (some old) now token p invalid e h = (old, h)

  verify_token-from :
      (now token : ℕ) (p : JwtPayload)
      → verify_token out now token ≡ verified p
      → (secret : ℕ) × (out.jwt_verify secret now token ≡ verified p)
  unfolding verify_token
  verify_token-from now token p h = or_previous-from out.previous_secret now token p _ refl h

  -- What a token that is accepted says.
  record Accepted (db : Database) (i : Identity) (v : Verified) : Type 0 where
    id : ℕ
    email : String
    role : Role
    jti : ℕ
    exp : ℕ
    payload : v ≡ verified (access_payload id email role jti exp)
    not_revoked : is_blacklisted jti db ≡ false
    same_jti : i.jti ≡ token_jti jti
    same_exp : i.exp ≡ some exp

  accept_payload-Accepted :
      (requested : Option ℕ) (db : Database) (i : Identity) (v : Verified)
      → accept_payload out requested db v ≡ ok i
      → Accepted db i v
  accept_payload-Accepted requested db i expired h = cc
  accept_payload-Accepted requested db i invalid h = cc
  accept_payload-Accepted requested db i (verified (challenge_payload user_id)) h = cc
  accept_payload-Accepted requested db i (verified (access_payload id email role jti exp)) h =
      let (not_listed, identified) = token-accepted out requested db i id email role jti exp h in
      let (bound, same) = identify-ok out 0 requested i _ _ identified in
      record {
        id = id;
        email = email;
        role = role;
        jti = jti;
        exp = exp;
        payload = refl;
        not_revoked = not_listed;
        same_jti = ap (λ (x : Identity). x.jti) (sym same);
        same_exp = ap (λ (x : Identity). x.exp) (sym same);
      }

  accepts-Accepted :
      (now : ℕ) (requested : Option ℕ) (token : ℕ) (s : GateState R) (i : Identity)
      → (auth_middleware out now requested (jwt token) s).0 ≡ ok i
      → Accepted s.db i (verify_token out now token)
  unfolding auth_middleware
  accepts-Accepted now requested token s i h =
      accept_payload-Accepted requested s.db i (verify_token out now token) h

  -- A token names the same payload whenever it is accepted, and it is in time.
  same_token :
      (start now token : ℕ) (db later : Database) (i j : Identity)
      → (a : Accepted db i (verify_token out start token))
      → (b : Accepted later j (verify_token out now token))
      → (i.jti ≡ token_jti b.jti) × (i.exp ≡ some b.exp) × (now < b.exp * 1000)
  same_token start now token db later i j a b =
      let (old, at_start) = verify_token-from start token _ a.payload in
      let (new, at_now) = verify_token-from now token _ b.payload in
      let same = laws.one_payload old new start now token _ _ at_start at_now in
      (
        cc (a.same_jti, same),
        cc (a.same_exp, same),
        laws.unexpired new now token b.id b.email b.role b.jti b.exp at_now,
      )

-- After a logout that succeeds, the access token it was called with is of no use: `authMiddleware`
-- let the token through with an identity, `logout` was called with the `jti` and the `exp` of that
-- identity, then there were any calls and any runs of the cleanup job, the job not after the time of
-- the next request. That request, for any tenant, is not let through with the token. This holds
-- whichever secret signed it, under the promises of `jsonwebtoken` that a token has one payload and
-- is not verified after its `exp`.
pub logout_final :
    {R : Type 0} (out : Surroundings R) (laws : JwtLaws out.jwt_verify) (crypto : Crypto)
    (start now : ℕ) (env : Env) (requested again : Option ℕ) (token jti exp raw : ℕ)
    (s later : GateState R) (i j : Identity) (db : Database) (ms : List Moment)
    → (auth_middleware out start requested (jwt token) s).0 ≡ ok i
    → i.jti ≡ token_jti jti
    → i.exp ≡ some exp
    → (logout crypto env i.id jti exp raw db).0 ≡ ok tt
    → CleansBefore now ms
    → later.db ≡ after crypto ms (logout crypto env i.id jti exp raw db).1
    → (auth_middleware out now again (jwt token) later).0 ≢ ok j
logout_final out laws crypto start now env requested again token jti exp raw s later i j db ms first
      has_jti has_exp done past is_later accepted =
    let a = accepts-Accepted out laws start requested token s i first in
    let b = accepts-Accepted out laws now again token later j accepted in
    let (jti_b, exp_b, in_time) = same_token out laws start now token s.db later.db i j a b in
    let same_jti : jti ≡ b.jti = cc (jti_b, has_jti) in
    let same_exp : exp ≡ b.exp = cc (exp_b, has_exp) in
    let row = logged_out crypto env i.id jti exp in
    let after_logout = (logout crypto env i.id jti exp raw db).1 in
    let listed : Memᴰ row after_logout.blacklist =
      subst (Memᴰ row) (sym (logs_out-adds crypto env i.id jti exp raw db done)) (Memᴰ.head refl) in
    let still =
      after-mem crypto ms now after_logout row past (omega (arith, in_time, same_exp)) listed in
    let blocked = mem-is_blacklisted (after crypto ms after_logout) row still in
    cc (
      b.not_revoked,
      blocked,
      ap (λ d. is_blacklisted jti d) is_later,
      ap (λ n. is_blacklisted n later.db) same_jti,
    )
