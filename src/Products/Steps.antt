-- ===== src/Products/Steps.antt =====
-- src/modules/products/product.service.ts: what one call does to the tables.
use backend_foundation.Prelude.{
  ℕ, ◌==◌, ◌≡◌, refl, ◌<◌, leb, true, false, Option, none, some, List, [], ◌∷◌, ◌⊎◌, map, arith,
  Option-cases, Bool-cases, inl, inr, if◌then◌else◌,
}
use backend_foundation.Auth.Data.{
  AuthError, Env, product_not_owned, product_not_active, product_sold_out, category_not_higher,
  product_not_found,
}
use backend_foundation.Auth.Monad.{ok, err}
use backend_foundation.Products.{
  Product, ProductCategory, standard, product_category_rank, Shop, RequesterContext,
  CreateProductDto, find_product, find_row, new_product, insert_product, update_product,
  with_category, apply_upgrade, soft_delete, is_negative, create_product, may_change, check_upgrade,
  read_and_check, finish_upgrade, upgrade_product, delete_product, active, same_status, is_spent,
}

pub data ProductCall : Type 0 where
  creates : Env → CreateProductDto → ℕ → ProductCall
  upgrades : Option ℕ → ℕ → ProductCategory → RequesterContext → ProductCall
  deletes : Env → ℕ → RequesterContext → ProductCall

unfoldable pub perform_product : ProductCall → Shop → Shop
perform_product (creates env input user_id) s = (create_product env input user_id s).1
perform_product (upgrades tenant id to requester) s = (upgrade_product tenant id to requester s).1
perform_product (deletes env id requester) s = (delete_product env id requester s).1

unfoldable pub run_products : List ProductCall → Shop → Shop
unfolding perform_product
run_products [] s = s
run_products (c ∷ cs) s = run_products cs (perform_product c s)

-- What the guards of an upgrade have found.
pub record MayUpgrade (tenant : Option ℕ) (id : ℕ) (to : ProductCategory)
    (requester : RequesterContext) (s : Shop) (p : Product) : Type 0 where
  pub found : find_product tenant id s ≡ some p
  pub allowed : may_change requester p ≡ true
  pub on_sale : same_status p.status active ≡ true
  pub in_stock : is_spent p.stock ≡ false
  pub higher : product_category_rank p.category < product_category_rank to

pub data ShopStep (s t : Shop) : Type 0 where
  same : t.products ≡ s.products → t.upgrade_logs ≡ s.upgrade_logs → ShopStep s t
  inserted :
      (row : Product)
      → find_row row.id s ≡ none
      → row.category ≡ standard
      → t.products ≡ row ∷ s.products
      → t.upgrade_logs ≡ s.upgrade_logs
      → ShopStep s t
  removed :
      (id now : ℕ)
      → t.products
        ≡ map (λ q. if q.id == id then record q { deleted_at = some now } else q) s.products
      → t.upgrade_logs ≡ s.upgrade_logs
      → ShopStep s t
  upgraded :
      (tenant : Option ℕ) (id : ℕ) (to : ProductCategory) (requester : RequesterContext)
      (p : Product)
      → MayUpgrade tenant id to requester s p
      → t.products ≡ map (λ q. if q.id == id then with_category to q else q) s.products
      → t.upgrade_logs
        ≡ record {
          product_id = id;
          from_category = p.category;
          to_category = to;
          performed_by_id = requester.id;
        }
          ∷ s.upgrade_logs
      → ShopStep s t

module _ (tenant : Option ℕ) (id : ℕ) (to : ProductCategory) (requester : RequesterContext)
    (s : Shop) where
  checked :
      (p : Product)
      → find_product tenant id s ≡ some p
      → ((e : AuthError) × (check_upgrade to requester p s ≡ (err e, s)))
        ⊎ (MayUpgrade tenant id to requester s p × (check_upgrade to requester p s ≡ (ok tt, s)))
  unfolding check_upgrade
  checked p found = elim (Bool-cases (may_change requester p)) [
    | inr a ↦ inl (product_not_owned, rw a refl)
    | inl a ↦ elim (Bool-cases (same_status p.status active)) [
      | inr b ↦ inl (product_not_active, rw (a, b) refl)
      | inl b ↦ elim (Bool-cases (is_spent p.stock)) [
        | inl c ↦ inl (product_sold_out, rw (a, b, c) refl)
        | inr c ↦
            elim (Bool-cases (leb (product_category_rank to) (product_category_rank p.category))) [
              | inl d ↦ inl (category_not_higher, rw (a, b, c, d) refl)
              | inr d ↦ inr (
                record {
                  found = found;
                  allowed = a;
                  on_sale = b;
                  in_stock = c;
                  higher = ground (arith, d);
                },
                rw (a, b, c, d) refl,
              )
            ]
      ]
    ]
  ]

  -- The guards of an upgrade change nothing, and pass only where each of them does.
  pub read_and_check-cases :
      ((e : AuthError) × (read_and_check tenant id to requester s ≡ (err e, s)))
      ⊎ ((p : Product) × MayUpgrade tenant id to requester s p
          × (read_and_check tenant id to requester s ≡ (ok p.category, s)))
  unfolding read_and_check
  read_and_check-cases = elim (Option-cases (find_product tenant id s)) [
    | inl e ↦ inl (product_not_found, rw e refl)
    | inr (p, e) ↦ elim (checked p e) [
      | inl (why, f) ↦ inl (why, rw (e, f) refl)
      | inr (may, f) ↦ inr (p, may, rw (e, f) refl)
    ]
  ]

  finish-cases :
      (p : Product)
      → MayUpgrade tenant id to requester s p
      → ShopStep s (finish_upgrade id p.category to requester s).1
  unfolding finish_upgrade apply_upgrade update_product
  finish-cases p may = elim (Option-cases (find_row id s)) [
    | inl e ↦ same (rw e refl) (rw e refl)
    | inr (q, e) ↦ upgraded tenant id to requester p may (rw e refl) (rw e refl)
  ]

  upgrade-step : ShopStep s (upgrade_product tenant id to requester s).1
  unfolding upgrade_product
  upgrade-step = elim read_and_check-cases [
    | inl (e, f) ↦ rw f (same refl refl)
    | inr (p, may, f) ↦ rw f (finish-cases p may)
  ]

create-step :
    (env : Env) (input : CreateProductDto) (user_id : ℕ) (s : Shop)
    → ShopStep s (create_product env input user_id s).1
unfolding create_product insert_product new_product
create-step env input user_id s = elim (Bool-cases (is_negative input.price)) [
  | inl e ↦ rw e (same refl refl)
  | inr e ↦ elim (Option-cases (find_row env.fresh_id s)) [
    | inl f ↦ inserted (new_product env input user_id) f refl (rw (e, f) refl) (rw (e, f) refl)
    | inr (p, f) ↦ rw (e, f) (same refl refl)
  ]
]

delete-step :
    (env : Env) (id : ℕ) (requester : RequesterContext) (s : Shop)
    → ShopStep s (delete_product env id requester s).1
unfolding delete_product soft_delete update_product
delete-step env id requester s = elim (Option-cases (find_product env.tenant_id id s)) [
  | inl e ↦ rw e (same refl refl)
  | inr (p, e) ↦ elim (Bool-cases (may_change requester p)) [
    | inr f ↦ rw (e, f) (same refl refl)
    | inl f ↦ elim (Option-cases (find_row id s)) [
      | inl g ↦ rw (e, f, g) (same refl refl)
      | inr (q, g) ↦ removed id env.now (rw (e, f, g) refl) (rw (e, f, g) refl)
    ]
  ]
]

pub perform-step : (call : ProductCall) (s : Shop) → ShopStep s (perform_product call s)
unfolding perform_product
perform-step (creates env input user_id) s = create-step env input user_id s
perform-step (upgrades tenant id to requester) s = upgrade-step tenant id to requester s
perform-step (deletes env id requester) s = delete-step env id requester s
