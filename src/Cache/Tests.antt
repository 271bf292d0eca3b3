-- ===== src/Cache/Tests.antt =====
-- A cache with one cell, and a read that finds the value of the database in it.
use backend_foundation.Prelude.{ℕ, ◌≡◌, refl, Option, none, some}
use backend_foundation.Auth.Monad.{ok}
use backend_foundation.Cache.{CacheRedis, get_or_set_cache}

abbrev one_cell : CacheRedis (Option ℕ) ℕ ℕ
one_cell = record {
  get = λ now key r. some r;
  set_ex = λ now key ttl v r. some (some v);
  del = λ key r. some none;
}

hit : get_or_set_cache (some one_cell) 0 1 30 (ok 6) (some 5) ≡ (ok 5, some 5)
unfolding get_or_set_cache
hit = refl
