-- ===== src/Auth/Sequential.antt =====
-- The cut of `refresh` into steps is the same program: a request that runs alone ends after at most
-- five steps with what `refresh` answers, and leaves the database that `refresh` leaves.
use backend_foundation.Prelude.{ℕ, ◌≡◌, Option, some, arith}
use backend_foundation.Auth.Data.{DeviceContext, Database, Env, Crypto}
use backend_foundation.Auth.Refresh.{refresh}
use backend_foundation.Auth.Interleaving.{arrived, run_alone, outcome, advance}

-- Five steps of a request that runs alone are one call of `refresh`: they end with its answer and
-- with its database.
pub run_alone-refresh :
    (crypto : Crypto) (env : Env) (raw : ℕ) (device : Option DeviceContext) (db : Database)
    → (outcome (run_alone crypto env device 5 (arrived raw) db).0
        ≡ some (refresh crypto env raw device db).0)
      × ((run_alone crypto env device 5 (arrived raw) db).1 ≡ (refresh crypto env raw device db).1)
unfolding refresh run_alone advance outcome
run_alone-refresh crypto env raw device db = ground arith
