-- ===== src/Cache/Laws.antt =====
-- When a read through the cache is a read of the database.
use backend_foundation.Prelude.{ℕ, ◌≡◌, refl, sym, Option, none, some}
use backend_foundation.Auth.Monad.{Result, ok, err}
use backend_foundation.Cache.{CacheRedis, store_fresh, after_get, get_or_set_cache}

-- What the cache has under the key, if it can be read, is what the fetcher would return.
abbrev pub Coherent : {R K V : Type 0} → Option (CacheRedis R K V) → ℕ → K → Result V → R → Type 0
Coherent none now key fresh r = Unit
Coherent {V = V} (some api) now key fresh r =
    (v : V) → api.get now key r ≡ some (some v) → fresh ≡ ok v

store_fresh-answer :
    {R K V : Type 0} (api : CacheRedis R K V) (now : ℕ) (key : K) (ttl : ℕ) (fresh : Result V)
    (r : R)
    → (store_fresh api now key ttl fresh r).0 ≡ fresh
store_fresh-answer api now key ttl (ok v) r = refl
store_fresh-answer api now key ttl (err e) r = refl

after_get-answer :
    {R K V : Type 0} (api : CacheRedis R K V) (now : ℕ) (key : K) (ttl : ℕ) (fresh : Result V)
    (r : R) (o : Option (Option V))
    → ((v : V) → o ≡ some (some v) → fresh ≡ ok v)
    → (after_get api now key ttl fresh r o).0 ≡ fresh
after_get-answer api now key ttl fresh r none h = store_fresh-answer api now key ttl fresh r
after_get-answer api now key ttl fresh r (some none) h = store_fresh-answer api now key ttl fresh r
after_get-answer api now key ttl fresh r (some (some v)) h = sym (h v refl)

-- A coherent cache cannot be told from no cache: a read gives what the fetcher gives, also where
-- Redis fails, and errors pass through.
pub get_or_set_cache-transparent :
    {R K V : Type 0} (api : Option (CacheRedis R K V)) (now : ℕ) (key : K) (ttl : ℕ)
    (fresh : Result V) (r : R)
    → Coherent api now key fresh r
    → (get_or_set_cache api now key ttl fresh r).0 ≡ fresh
unfolding get_or_set_cache
get_or_set_cache-transparent none now key ttl fresh r h = refl
get_or_set_cache-transparent (some api) now key ttl fresh r h =
    after_get-answer api now key ttl fresh r (api.get now key r) h
