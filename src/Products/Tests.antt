-- ===== src/Products/Tests.antt =====
-- Runs of src/modules/products/product.service.ts and src/shared/pagination.ts.
use backend_foundation.Prelude.{
  ℕ, ◌==◌, Bool-cases, inl, inr, ap, sym, ◌≡◌, ◌≤◌, refl, none, some, List, [], ◌∷◌, Memᴰ, arith,
}
use backend_foundation.Auth.Data.{user, admin}
use backend_foundation.Auth.Monad.{ok}
use backend_foundation.Auth.Sample.{at}
use backend_foundation.Pagination.{total_pages}
use backend_foundation.Pagination.Cover.{pages_upto, pages_cover}
use backend_foundation.Products.{
  Product, pos, standard, featured, premium, active, product_category_rank, Shop, RequesterContext,
  lists_invalidated, product_upgraded, find_product, find_row, upgrade_product, with_category,
}
use backend_foundation.Products.Rows.{IdsOnce}
use backend_foundation.Products.Steps.{
  ProductCall, creates, upgrades, deletes, run_products, MayUpgrade,
}
use backend_foundation.Products.History.{Consistent}
use backend_foundation.Products.Laws.{upgrade_needs, run-Consistent, category_never_falls}
use backend_foundation.Products.Races.{
  UpgradeRequest, waiting, checked, answered, upgrade_phase, upgrade_race_lowers,
}

abbrev lamp : Product
lamp = record {
  id = 5;
  title = "Lamp";
  description = "";
  price = pos 100;
  category = standard;
  status = active;
  stock = pos 2;
  user_id = 1;
  created_at = 7;
  deleted_at = none;
  tenant_id = none;
}

abbrev shop : Shop
shop = record { products = lamp ∷ []; upgrade_logs = []; events = [] }

abbrev owner : RequesterContext
owner = record { id = 1; role = user }

lamp_once : IdsOnce (lamp ∷ [])
lamp_once p q (Memᴰ.head e) (Memᴰ.head f) same = cc (e, f)
lamp_once p q (Memᴰ.head e) (Memᴰ.tail n) same = elim n [ ]
lamp_once p q (Memᴰ.tail m) n same = elim m [ ]

shop-Consistent : Consistent shop
shop-Consistent = record {
  once = lamp_once;
  tell = λ id p e. elim (Bool-cases (5 == id)) [
    | inl hit ↦ let is : lamp ≡ p = cc (rw hit at e) in ap (λ (x : Product). x.category) (sym is)
    | inr miss ↦ absurd (cc (rw miss at e))
  ];
  known = λ id e. refl;
}

abbrev product_calls : List ProductCall
product_calls =
    upgrades none 5 featured owner
    ∷ creates (at 20) (record { title = "Desk"; description = ""; price = pos 9; stock = pos 1 }) 2
    ∷ upgrades none 5 featured owner
    ∷ deletes (at 30) 11 (record { id = 9; role = admin })
    ∷ []

upgrade_needs_example :
    (p : Product) × MayUpgrade none 5 premium owner shop p
    × (premium ≡ premium)
    × ((upgrade_product none 5 premium owner shop).1.upgrade_logs
        ≡ record {
          product_id = 5;
          from_category = p.category;
          to_category = premium;
          performed_by_id = 1;
        }
          ∷ [])
    × ((upgrade_product none 5 premium owner shop).1.events
        ≡ product_upgraded 5 ∷ lists_invalidated ∷ [])
unfolding upgrade_product find_product find_row product_category_rank
upgrade_needs_example =
    upgrade_needs none 5 premium owner shop {q = with_category premium lamp} refl

run-Consistent_example : Consistent (run_products product_calls shop)
run-Consistent_example = run-Consistent product_calls shop shop-Consistent

category_never_falls_example :
    (q : Product) × (find_row 5 (run_products product_calls shop) ≡ some q)
    × (product_category_rank standard ≤ product_category_rank q.category)
    × (q.user_id ≡ 1)
unfolding find_row
category_never_falls_example = category_never_falls product_calls shop 5 lamp shop-Consistent refl

abbrev to_featured : UpgradeRequest
to_featured = record { tenant = none; id = 5; to = featured; requester = owner }

abbrev to_premium : UpgradeRequest
to_premium = record { tenant = none; id = 5; to = premium; requester = owner }

may_featured : MayUpgrade none 5 featured owner shop lamp
unfolding find_product product_category_rank
may_featured = record {
  found = refl;
  allowed = refl;
  on_sale = refl;
  in_stock = refl;
  higher = omega arith;
}

may_premium : MayUpgrade none 5 premium owner shop lamp
unfolding find_product product_category_rank
may_premium = record {
  found = refl;
  allowed = refl;
  on_sale = refl;
  in_stock = refl;
  higher = omega arith;
}

upgrade_race_lowers_example :
    (raised final : Shop) × (upgrade_phase to_featured (waiting, shop) ≡ (checked standard, shop))
    × (upgrade_phase to_premium (waiting, shop) ≡ (checked standard, shop))
    × (upgrade_phase to_premium (checked standard, shop)
        ≡ (answered (ok (with_category premium lamp)), raised))
    × (upgrade_phase to_featured (checked standard, raised)
        ≡ (answered (ok (with_category featured lamp)), final))
    × (find_row 5 raised ≡ some (with_category premium lamp))
    × (find_row 5 final ≡ some (with_category featured lamp))
unfolding find_row product_category_rank
upgrade_race_lowers_example =
    upgrade_race_lowers to_featured to_premium shop lamp may_featured may_premium refl refl
      (omega arith)

abbrev numbers : List ℕ
numbers = 1 ∷ 2 ∷ 3 ∷ 4 ∷ 5 ∷ []

pages_cover_example : pages_upto (total_pages 5 2) 2 numbers ≡ numbers
pages_cover_example = pages_cover 2 numbers (omega arith)
