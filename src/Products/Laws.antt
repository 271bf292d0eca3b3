-- ===== src/Products/Laws.antt =====
-- src/modules/products/product.service.ts: upgrades, and sequences of whole calls.
use backend_foundation.Prelude.{
  ℕ, ◌≡◌, refl, ap, ◌∙◌, sym, ◌≤◌, Option, some, List, [], ◌∷◌, arith, Option-cases, inl, inr,
}
use backend_foundation.Auth.Monad.{ok}
use backend_foundation.Products.{
  Product, ProductCategory, product_category_rank, Shop, RequesterContext, lists_invalidated,
  product_upgraded, find_row, update_product, apply_upgrade, finish_upgrade, upgrade_product,
  with_category,
}
use backend_foundation.Products.Steps.{
  ProductCall, perform_product, run_products, perform-step, MayUpgrade, read_and_check-cases,
}
use backend_foundation.Products.History.{Consistent, step-Consistent, step-Rises}

module _ (tenant : Option ℕ) (id : ℕ) (to : ProductCategory) (requester : RequesterContext)
    (s : Shop) where
  finish-ok :
      (from : ProductCategory) {q : Product}
      → (finish_upgrade id from to requester s).0 ≡ ok q
      → (q.category ≡ to)
        × ((finish_upgrade id from to requester s).1.upgrade_logs
            ≡ record {
              product_id = id;
              from_category = from;
              to_category = to;
              performed_by_id = requester.id;
            }
              ∷ s.upgrade_logs)
        × ((finish_upgrade id from to requester s).1.events
            ≡ product_upgraded id ∷ lists_invalidated ∷ s.events)
  unfolding finish_upgrade apply_upgrade update_product
  finish-ok from {q} h = elim (Option-cases (find_row id s)) [
    | inl e ↦ absurd (cc (rw e at h))
    | inr (p, e) ↦
        let made : ok (with_category to p) ≡ ok q = rw e at h in
        let is : with_category to p ≡ q = cc made in
        (sym (ap (λ (x : Product). x.category) is), rw e refl, rw e refl)
  ]

  -- An upgrade succeeds only for the owner of a product that the tenant of the request may see, or
  -- for someone who may moderate products; the product is on sale, in stock, and of a lower category
  -- than the one asked for. The answer has that category, one log tells the change as it was, and
  -- the caches of lists are cleared before the webhook is sent.
  pub upgrade_needs :
      {q : Product}
      → (upgrade_product tenant id to requester s).0 ≡ ok q
      → (p : Product) × MayUpgrade tenant id to requester s p
        × (q.category ≡ to)
        × ((upgrade_product tenant id to requester s).1.upgrade_logs
            ≡ record {
              product_id = id;
              from_category = p.category;
              to_category = to;
              performed_by_id = requester.id;
            }
              ∷ s.upgrade_logs)
        × ((upgrade_product tenant id to requester s).1.events
            ≡ product_upgraded id ∷ lists_invalidated ∷ s.events)
  unfolding upgrade_product
  upgrade_needs {q} h = elim (read_and_check-cases tenant id to requester s) [
    | inl (e, f) ↦ absurd (cc (rw f at h))
    | inr (p, may, f) ↦
        let (is, logs, events) = finish-ok p.category (rw f at h) in
        (p, may, is, rw f logs, rw f events)
  ]

-- Every sequence of calls keeps the tables consistent: ids are unique, each product has the category
-- that its newest upgrade log tells (or the first one, if it has none), and no log is of a product
-- that is not there.
pub run-Consistent :
    (calls : List ProductCall) (s : Shop) → Consistent s → Consistent (run_products calls s)
unfolding run_products
run-Consistent [] s c = c
run-Consistent (call ∷ calls) s c =
    run-Consistent calls (perform_product call s)
      (step-Consistent s (perform_product call s) c (perform-step call s))

-- In a sequence of whole calls, no product is lost, changes its owner or falls to a lower category.
pub category_never_falls :
    (calls : List ProductCall) (s : Shop) (id : ℕ) (p : Product)
    → Consistent s
    → find_row id s ≡ some p
    → (q : Product) × (find_row id (run_products calls s) ≡ some q)
      × (product_category_rank p.category ≤ product_category_rank q.category)
      × (q.user_id ≡ p.user_id)
unfolding run_products find_row
category_never_falls [] s id p c e = (p, e, omega arith, refl)
category_never_falls (call ∷ calls) s id p c e =
    let t = perform_product call s in
    let step = perform-step call s in
    let (q, found, up, owner) = step-Rises s t c step id p e in
    let (r, found', up', owner') =
      category_never_falls calls t id q (step-Consistent s t c step) found in
    (r, found', omega (arith, up, up'), owner' ∙ owner)
