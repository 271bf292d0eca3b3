-- ===== src/Gate/Quota.antt =====
-- The quota of an API key over one window of src/shared/security/api-key-gateway.ts.
use backend_foundation.Prelude.{
  ℕ, suc, ◌+◌, ◌-◌, ◌≡◌, min, ltb, refl, ◌∙◌, ap, Bool-cases, inl, inr, Option, some, List, [], ◌∷◌,
  length, arith, if◌then◌else◌,
}
use backend_foundation.Auth.Monad.{Result, ok, err}
use backend_foundation.Gate.Limits.{
  TenantPlanName, CounterRedis, window_seconds, limit_of, after_count,
  enforce_partner_api_gateway_limit,
}

-- What `SET NX` and `INCR` promise while the key does not expire: the counter goes up by one, and the
-- answer is its new value.
pub record CountsUp {R : Type 0} (api : CounterRedis R) (key_id : ℕ) (value : R → ℕ) : Type 0 where
  pub next :
      (now : ℕ) (r : R)
      → (r' : R) × (api.count now key_id window_seconds r ≡ some (suc (value r), r'))
        × (value r' ≡ suc (value r))

abbrev passes : Result (Unit {0}) → ℕ
passes (ok done) = 1
passes (err e) = 0

-- How many of the requests with a key, at these times, get past the quota.
unfoldable pub count_passed :
    {R : Type 0} → CounterRedis R → ℕ → ℕ → Option TenantPlanName → Option ℕ → List ℕ → R → ℕ
unfolding enforce_partner_api_gateway_limit
count_passed api gateway_limit key_id plan override [] r = 0
count_passed api gateway_limit key_id plan override (now ∷ times) r =
    let a = enforce_partner_api_gateway_limit (some api) gateway_limit now key_id plan override r in
    passes a.0 + count_passed api gateway_limit key_id plan override times a.1

module _ {R : Type 0} (api : CounterRedis R) (gateway_limit key_id : ℕ)
    (plan : Option TenantPlanName) (override : Option ℕ) (value : R → ℕ)
    (up : CountsUp api key_id value) where
  abbrev limit : ℕ
  limit = limit_of gateway_limit plan override

  after_count-passes :
      (n : ℕ) (r r' : R)
      → (passes (after_count limit r (some (n, r'))).0 ≡ (if ltb limit n then 0 else 1))
        × ((after_count limit r (some (n, r'))).1 ≡ r')
  after_count-passes n r r' = elim (Bool-cases (ltb limit n)) [
    | inl e ↦ rw e (refl, refl)
    | inr e ↦ rw e (refl, refl)
  ]

  enforced :
      (now : ℕ) (r : R)
      → (r' : R) × ((enforce_partner_api_gateway_limit
            (some api)
            gateway_limit
            now
            key_id
            plan
            override
            r).1
          ≡ r')
        × (passes
              (enforce_partner_api_gateway_limit
                (some api)
                gateway_limit
                now
                key_id
                plan
                override
                r).0
            ≡ (if ltb limit (suc (value r)) then 0 else 1))
        × (value r' ≡ suc (value r))
  unfolding enforce_partner_api_gateway_limit
  enforced now r =
      let (r', counted, risen) = up.next now r in
      let (answer, state) = after_count-passes (suc (value r)) r r' in
      (
        r',
        ap (λ o. (after_count limit r o).1) counted ∙ state,
        ap (λ o. passes (after_count limit r o).0) counted ∙ answer,
        risen,
      )

  passed-from :
      (times : List ℕ) (r : R)
      → count_passed api gateway_limit key_id plan override times r
        ≡ min (length times) (limit - value r)
  unfolding count_passed
  passed-from [] r = ground arith
  passed-from (now ∷ times) r =
      let (r', state, answer, risen) = enforced now r in
      let rest = passed-from times r' in
      let same = ap (λ x. count_passed api gateway_limit key_id plan override times x) state in
      ground (arith, answer, same, rest, risen)

-- In one window a key gets exactly as many requests through as its limit says, or all of them if they
-- are fewer: the override of the key, unless it is null or 0, or else the tier of the tenant's plan,
-- or else that of the default plan. The counter starts at 0 and does not expire.
pub quota_exact :
    {R : Type 0} (api : CounterRedis R) (gateway_limit key_id : ℕ) (plan : Option TenantPlanName)
    (override : Option ℕ) (value : R → ℕ) (up : CountsUp api key_id value) (times : List ℕ) (r : R)
    → value r ≡ 0
    → count_passed api gateway_limit key_id plan override times r
      ≡ min (length times) (limit_of gateway_limit plan override)
quota_exact api gateway_limit key_id plan override value up times r fresh =
    passed-from api gateway_limit key_id plan override value up times r
    ∙ ap (λ v. min (length times) (limit_of gateway_limit plan override - v)) fresh
    ∙ ground arith
