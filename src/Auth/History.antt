-- ===== src/Auth/History.antt =====
-- Histories of calls of the service, from any database: the families of refresh tokens stay valid,
-- and no refresh carries a session past the deadline that its login set.
use backend_foundation.Prelude.{
  ℕ, ◌≤◌, ◌≡◌, ◌∙◌, ◌==◌, ap, sym, String, Option, some, List, [], ◌∷◌, Memᴰ, arith, inl, inr,
}
use backend_foundation.Auth.Data.{User, RefreshToken, DeviceContext, Database, Env, Crypto}
use backend_foundation.Auth.Monad.{ok}
use backend_foundation.Auth.Repository.{
  find_refresh_token_by_hash, revoke_all_refresh_tokens_for_user,
}
use backend_foundation.Auth.Refresh.{issue_tokens_for_user, refresh, TokenPair}
use backend_foundation.Auth.Sessions.{logout, revoke_session, revoke_all_sessions}
use backend_foundation.Auth.Recovery.{register, verify_email, forgot_password, reset_password}
use backend_foundation.Auth.Rows.{SameSession}
use backend_foundation.Auth.Families.{
  FamiliesValid, TableStep-Valid, TableStep-keeps, SameSession-refl, SameSession-trans,
}
use backend_foundation.Auth.Rotation.{found-mem}
use backend_foundation.Auth.Reuse.{refresh_rotates}
use backend_foundation.Auth.TableSteps.{
  IsNew, TableSteps, done, more, one, revoked_by, signs_in-Steps, refreshes-Steps,
}
use backend_foundation.Auth.RevocationSteps.{
  RevokesRow-Steps, logs_out-RevokesRow, revokes_session-RevokesRow, registers-same, verifies-same,
  forgets-same, resets-cases,
}

pub data Call : Type 0 where
  signs_in : User → Option DeviceContext → Call
  refreshes : ℕ → Option DeviceContext → Call
  logs_out : ℕ → ℕ → ℕ → ℕ → Call
  revokes_session : ℕ → ℕ → Call
  revokes_all : ℕ → Call
  registers : String → String → String → Call
  verifies_email : ℕ → Call
  forgets_password : String → Call
  resets_password : ℕ → String → Call

-- The database after a call, whatever it answered.
unfoldable pub perform : Crypto → Env → Call → Database → Database
perform crypto env (signs_in u device) db = (issue_tokens_for_user crypto env u device db).1
perform crypto env (refreshes raw device) db = (refresh crypto env raw device db).1
perform crypto env (logs_out user_id jti exp raw) db = (logout crypto env user_id jti exp raw db).1
perform crypto env (revokes_session user_id id) db = (revoke_session env user_id id db).1
perform crypto env (revokes_all user_id) db = (revoke_all_sessions env user_id db).1
perform crypto env (registers email password name) db =
    (register crypto env email password name db).1
perform crypto env (verifies_email raw) db = (verify_email crypto env raw db).1
perform crypto env (forgets_password email) db = (forgot_password crypto env email db).1
perform crypto env (resets_password raw password) db = (reset_password crypto env raw password db).1

-- A call with its time and random values.
abbrev pub Event : Type 0
Event = Env × Call

unfoldable pub run : Crypto → List Event → Database → Database
run crypto [] db = db
run crypto ((env, call) ∷ es) db = run crypto es (perform crypto env call db)

-- Every call of the history draws new random values.
abbrev pub DrawsNew : Crypto → List Event → Database → Type 0
DrawsNew crypto [] db = Unit
DrawsNew crypto ((env, call) ∷ es) db =
    IsNew env db.refresh_tokens × DrawsNew crypto es (perform crypto env call db)

unchanged : {ts us : List RefreshToken} → us ≡ ts → TableSteps ts us
unchanged e = rw e done

perform-Steps :
    (crypto : Crypto) (env : Env) (call : Call) (db : Database)
    → FamiliesValid db.refresh_tokens
    → IsNew env db.refresh_tokens
    → TableSteps db.refresh_tokens (perform crypto env call db).refresh_tokens
unfolding perform revoke_all_sessions revoke_all_refresh_tokens_for_user
perform-Steps crypto env (signs_in u device) db v new = signs_in-Steps crypto env u device db new
perform-Steps crypto env (refreshes raw device) db v new =
    refreshes-Steps crypto env raw device db v new
perform-Steps crypto env (logs_out user_id jti exp raw) db v new =
    RevokesRow-Steps env.now db (logout crypto env user_id jti exp raw db).1
      (logs_out-RevokesRow crypto env user_id jti exp raw db)
perform-Steps crypto env (revokes_session user_id id) db v new =
    RevokesRow-Steps env.now db (revoke_session env user_id id db).1
      (revokes_session-RevokesRow crypto env user_id id db)
perform-Steps crypto env (revokes_all user_id) db v new =
    one (revoked_by (λ t. t.user_id == user_id) env.now db.refresh_tokens)
perform-Steps crypto env (registers email password name) db v new =
    unchanged (registers-same crypto env email password name db)
perform-Steps crypto env (verifies_email raw) db v new = unchanged (verifies-same crypto env raw db)
perform-Steps crypto env (forgets_password email) db v new =
    unchanged (forgets-same crypto env email db)
perform-Steps crypto env (resets_password raw password) db v new =
    elim (resets-cases crypto env raw password db) [
      | inl e ↦ unchanged e
      | inr e ↦ rw e (one (revoked_by _ env.now db.refresh_tokens))
    ]

TableSteps-Valid :
    {ts us : List RefreshToken} → TableSteps ts us → FamiliesValid ts → FamiliesValid us
TableSteps-Valid done v = v
TableSteps-Valid (more r s) v = TableStep-Valid s (TableSteps-Valid r v)

TableSteps-keeps :
    {ts us : List RefreshToken}
    → TableSteps ts us
    → (s : RefreshToken) → Memᴰ s ts
    → (t : RefreshToken) × Memᴰ t us × SameSession s t
TableSteps-keeps done s m = (s, m, SameSession-refl s)
TableSteps-keeps (more r st) s m =
    let (t, n, same) = TableSteps-keeps r s m in
    let (u, k, same') = TableStep-keeps st t n in (u, k, SameSession-trans s t u same same')

-- After any history of calls that draw new random values, each family of refresh tokens has one
-- user, one deadline and at most one active row, if that was so before.
pub run-FamiliesValid :
    (crypto : Crypto) (es : List Event) (db : Database)
    → DrawsNew crypto es db
    → FamiliesValid db.refresh_tokens
    → FamiliesValid (run crypto es db).refresh_tokens
unfolding run
run-FamiliesValid crypto [] db new v = v
run-FamiliesValid crypto ((env, call) ∷ es) db new v =
    run-FamiliesValid crypto es (perform crypto env call db) new.1
      (TableSteps-Valid (perform-Steps crypto env call db v new.0) v)

run-keeps :
    (crypto : Crypto) (es : List Event) (db : Database)
    → DrawsNew crypto es db
    → FamiliesValid db.refresh_tokens
    → (s : RefreshToken) → Memᴰ s db.refresh_tokens
    → (t : RefreshToken) × Memᴰ t (run crypto es db).refresh_tokens × SameSession s t
unfolding run
run-keeps crypto [] db new v s m = (s, m, SameSession-refl s)
run-keeps crypto ((env, call) ∷ es) db new v s m =
    let steps = perform-Steps crypto env call db v new.0 in
    let (t, n, same) = TableSteps-keeps steps s m in
    let (u, k, same') = run-keeps crypto es _ new.1 (TableSteps-Valid steps v) t n in
    (u, k, SameSession-trans s t u same same')

-- The deadline of a session binds for good: take any row of the session table, then any history of
-- calls, then a refresh that succeeds with a token of that row's family. It happens no later than
-- the deadline of the row, however often the family was rotated.
pub session_lifetime :
    (crypto : Crypto) (es : List Event) (db : Database) (s : RefreshToken) (env : Env) (raw : ℕ)
    (device : Option DeviceContext) (t : RefreshToken) (pair : TokenPair)
    → DrawsNew crypto es db
    → FamiliesValid db.refresh_tokens
    → Memᴰ s db.refresh_tokens
    → find_refresh_token_by_hash (crypto.hash_secure_token raw) (run crypto es db) ≡ some t
    → t.family_id ≡ s.family_id
    → (refresh crypto env raw device (run crypto es db)).0 ≡ ok pair
    → env.now ≤ s.family_session_expires_at
session_lifetime crypto es db s env raw device t pair new v m e f success =
    let (u, n, same) = run-keeps crypto es db new v s m in
    let rotated = refresh_rotates crypto env raw device (run crypto es db) pair success in
    let found = (found-mem _ _ e).0 in
    let one_deadline =
      (run-FamiliesValid crypto es db new v).deadline t u found n (f ∙ sym same.family_id) in
    let same_row : rotated.old ≡ t = cc (rotated.stored) in
    omega (
      arith,
      ap (λ (x : RefreshToken). x.family_session_expires_at) same_row,
      rotated.in_session,
      one_deadline,
      same.deadline,
    )
