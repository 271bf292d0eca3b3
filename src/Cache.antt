-- ===== src/Cache.antt =====
-- src/shared/utils/cache.ts: reading through a cache on Redis. The commands are arguments; a
-- rejected promise is `none`.
use backend_foundation.Prelude.{ℕ, Option, none, some, or_else}
use backend_foundation.Auth.Monad.{Result, ok, err}
pub mod Laws
mod Tests

-- `get`, `set … EX` and `del` at a time, for keys and values of one kind.
pub record CacheRedis (R K V : Type 0) : Type 0 where
  pub get : ℕ → K → R → Option (Option V)
  pub set_ex : ℕ → K → ℕ → V → R → Option R
  pub del : K → R → Option R

module _ {R K V : Type 0} where
  -- The value of the fetcher is stored if it did not throw.
  abbrev pub store_fresh : CacheRedis R K V → ℕ → K → ℕ → Result V → R → Result V × R
  store_fresh api now key ttl (ok v) r = (ok v, or_else (api.set_ex now key ttl v r) r)
  store_fresh api now key ttl (err e) r = (err e, r)

  abbrev pub after_get :
      CacheRedis R K V → ℕ → K → ℕ → Result V → R → Option (Option V) → Result V × R
  after_get api now key ttl fresh r (some (some v)) = (ok v, r)
  after_get api now key ttl fresh r (some none) = store_fresh api now key ttl fresh r
  after_get api now key ttl fresh r none = store_fresh api now key ttl fresh r

  -- The fetcher only reads the database: it is the value that it has there.
  unfoldable pub get_or_set_cache :
      Option (CacheRedis R K V) → ℕ → K → ℕ → Result V → R → Result V × R
  get_or_set_cache none now key ttl fresh r = (fresh, r)
  get_or_set_cache (some api) now key ttl fresh r =
      after_get api now key ttl fresh r (api.get now key r)

  unfoldable pub invalidate_cache : Option (CacheRedis R K V) → K → R → R
  invalidate_cache none key r = r
  invalidate_cache (some api) key r = or_else (api.del key r) r
