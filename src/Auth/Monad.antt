-- ===== src/Auth/Monad.antt =====
-- The service's effects: a call reads and changes a state, and returns or throws. What was
-- written before a throw stays written.
use backend_foundation.Prelude.{Option, none, some, Bool, true, false}
use backend_foundation.Auth.Data.{AuthError}

pub data Result {ℓ} (A : Type ℓ) : Type ℓ where
  ok : A → Result A
  err : AuthError → Result A

abbrev pub M {ℓ} : Type 0 → Type ℓ → Type ℓ
M S A = S → Result A × S

abbrev pub pure {ℓ} : {S : Type 0} {A : Type ℓ} → A → M S A
pure a s = (ok a, s)

abbrev pub throw {ℓ} : {S : Type 0} {A : Type ℓ} → AuthError → M S A
throw e s = (err e, s)

abbrev pub continue {ℓ κ} :
    {S : Type 0} {A : Type ℓ} {B : Type κ} → (A → M S B) → Result A → S → Result B × S
continue f (ok a) s = f a s
continue f (err e) s = (err e, s)

infixl 5 ◌>>=◌ ◌>>◌
abbrev pub ◌>>=◌ {ℓ κ} : {S : Type 0} {A : Type ℓ} {B : Type κ} → M S A → (A → M S B) → M S B
◌>>=◌ m f s = continue f (m s).0 (m s).1

abbrev pub ◌>>◌ {κ} : {S : Type 0} {B : Type κ} → M S (Unit {0}) → M S B → M S B
m >> k = m >>= λ _. k

-- Reads the state.
abbrev pub gets {ℓ} : {S : Type 0} {A : Type ℓ} → (S → A) → M S A
gets f s = (ok (f s), s)

-- Changes the state.
abbrev pub modify : {S : Type 0} → (S → S) → M S (Unit {0})
modify f s = (ok tt, f s)

abbrev pub or_throw {ℓ} : {S : Type 0} {A : Type ℓ} → Option A → AuthError → M S A
or_throw none e = throw e
or_throw (some a) e = pure a

-- Fails, and changes nothing, where a unique column has the value already or a row is missing.
abbrev pub modify_unless : {S : Type 0} → Bool → AuthError → (S → S) → M S (Unit {0})
modify_unless true e f s = (err e, s)
modify_unless false e f s = (ok tt, f s)
