-- ===== src/Products.antt =====
-- src/modules/products: product.service.ts and product.repository.ts, on the tables Product and
-- ProductUpgradeLog. What the service sends out (the cleared list caches and the webhooks) is kept in
-- order. `updatedAt` is left out.
pub mod Steps
pub mod Rows
pub mod History
pub mod Laws
pub mod Races
mod Tests
use backend_foundation.Prelude.{
  ℕ, ◌==◌, String, Bool, true, false, not, ◌&&◌, ◌||◌, leb, ltb, Option, none, some, List, [], ◌∷◌,
  map, find, keep, length, is_some, if◌then◌else◌,
}
use backend_foundation.Auth.Data.{
  Role, Env, record_not_found, unique_violation, price_negative, product_not_found,
  product_not_owned, product_not_active, product_sold_out, category_not_higher,
}
use backend_foundation.Auth.Monad.{
  M, pure, throw, ◌>>=◌, ◌>>◌, gets, modify, or_throw, modify_unless,
}
use backend_foundation.Access.{product_moderate, has_permission}
use backend_foundation.Pagination.{pagination, window, PaginatedResult, build_paginated_result}

-- A signed integer: `pos n` is n, `negsuc n` is - (n + 1).
pub data ℤ : Type 0 where
  pos : ℕ → ℤ
  negsuc : ℕ → ℤ

abbrev pub is_negative : ℤ → Bool
is_negative (pos n) = false
is_negative (negsuc n) = true

-- `n <= 0`
abbrev pub is_spent : ℤ → Bool
is_spent (pos n) = n == 0
is_spent (negsuc n) = true

pub data ProductCategory : Type 0 where
  standard featured premium : ProductCategory

-- PRODUCT_CATEGORY_RANK
unfoldable pub product_category_rank : ProductCategory → ℕ
product_category_rank standard = 0
product_category_rank featured = 1
product_category_rank premium = 2

pub data ProductStatus : Type 0 where
  active inactive sold : ProductStatus

pub record Product : Type 0 where
  pub id : ℕ
  pub title : String
  pub description : String
  pub price : ℤ
  pub category : ProductCategory
  pub status : ProductStatus
  pub stock : ℤ
  pub user_id : ℕ
  pub created_at : ℕ
  pub deleted_at : Option ℕ
  pub tenant_id : Option ℕ

pub record ProductUpgradeLog : Type 0 where
  pub product_id : ℕ
  pub from_category : ProductCategory
  pub to_category : ProductCategory
  pub performed_by_id : ℕ

-- `invalidateByPattern` of the list caches, and `dispatchWebhook`.
pub data ProductEvent : Type 0 where
  lists_invalidated : ProductEvent
  product_created product_upgraded product_deleted : ℕ → ProductEvent

pub record Shop : Type 0 where
  pub products : List Product
  pub upgrade_logs : List ProductUpgradeLog
  pub events : List ProductEvent

pub record RequesterContext : Type 0 where
  pub id : ℕ
  pub role : Role

pub record CreateProductDto : Type 0 where
  pub title : String
  pub description : String
  pub price : ℤ
  pub stock : ℤ

pub record ListProductsQuery : Type 0 where
  pub page : ℕ
  pub limit : ℕ
  pub status : Option ProductStatus
  pub category : Option ProductCategory

abbrev pub same_status : ProductStatus → ProductStatus → Bool
same_status active active = true
same_status inactive inactive = true
same_status sold sold = true
same_status _ _ = false

abbrev pub same_category : ProductCategory → ProductCategory → Bool
same_category c d = product_category_rank c == product_category_rank d

-- The condition of a column that the query names, or of the active tenant.
abbrev pub matches {ℓ κ} : {A : Type ℓ} {B : Type κ} → (A → B → Bool) → Option A → B → Bool
matches same none b = true
matches same (some a) b = same a b

abbrev pub in_tenant : ℕ → Option ℕ → Bool
in_tenant t none = false
in_tenant t (some own) = own == t

abbrev pub is_visible : Option ℕ → Product → Bool
is_visible tenant p = not (is_some p.deleted_at) && matches in_tenant tenant p.tenant_id

-- ProductRepository.
unfoldable pub find_product : Option ℕ → ℕ → Shop → Option Product
find_product tenant id s = find (λ p. p.id == id && is_visible tenant p) s.products

unfoldable pub find_row : ℕ → Shop → Option Product
find_row id s = find (λ p. p.id == id) s.products

unfoldable pub new_product : Env → CreateProductDto → ℕ → Product
new_product env input user_id = record {
  id = env.fresh_id;
  title = input.title;
  description = input.description;
  price = input.price;
  category = standard;
  status = active;
  stock = input.stock;
  user_id = user_id;
  created_at = env.now;
  deleted_at = none;
  tenant_id = env.tenant_id;
}

unfoldable pub insert_product : Product → M Shop (Unit {0})
unfolding find_row
insert_product row s =
    modify_unless (is_some (find_row row.id s)) unique_violation
      (λ t. record t { products = row ∷ t.products }) s

-- `product.update` by id, on deleted rows too.
unfoldable pub update_product : ℕ → (Product → Product) → M Shop Product
unfolding find_row
update_product id change = do
  found ← gets (find_row id)
  p ← or_throw found record_not_found
  modify (λ s. record s { products = map (λ q. if q.id == id then change q else q) s.products })
  pure (change p)

abbrev pub with_category : ProductCategory → Product → Product
with_category c p = record p { category = c }

-- The update and the log, in one transaction.
unfoldable pub apply_upgrade : ℕ → ProductCategory → ProductCategory → ℕ → M Shop Product
unfolding update_product
apply_upgrade id from to performed_by_id = do
  p ← update_product id (with_category to)
  modify (λ s. record s {
    upgrade_logs =
        record {
          product_id = id;
          from_category = from;
          to_category = to;
          performed_by_id = performed_by_id;
        }
        ∷ s.upgrade_logs;
  })
  pure p

unfoldable pub soft_delete : ℕ → ℕ → M Shop Product
unfolding update_product
soft_delete now id = update_product id (λ p. record p { deleted_at = some now })

-- `orderBy: { createdAt: 'desc' }`
unfoldable pub insert_newest : Product → List Product → List Product
insert_newest p [] = p ∷ []
insert_newest p (q ∷ qs) =
    if ltb p.created_at q.created_at then q ∷ insert_newest p qs else p ∷ q ∷ qs

unfoldable pub newest_products : List Product → List Product
unfolding insert_newest
newest_products [] = []
newest_products (p ∷ ps) = insert_newest p (newest_products ps)

unfoldable pub is_listed : Option ℕ → ListProductsQuery → Product → Bool
is_listed tenant query p =
    is_visible tenant p
    && (matches same_status query.status p.status
        && matches same_category query.category p.category)

unfoldable pub listed : Option ℕ → ListProductsQuery → Shop → List Product
unfolding newest_products is_listed
listed tenant query s = newest_products (keep (is_listed tenant query) s.products)

-- `findMany` and `count` with the same condition, as a page.
unfoldable pub list_products : Option ℕ → ListProductsQuery → Shop → PaginatedResult Product
unfolding listed
list_products tenant query s =
    build_paginated_result (window (pagination query.page query.limit) (listed tenant query s))
      (length (listed tenant query s)) query.page query.limit

-- ProductService.
abbrev pub announce : ProductEvent → M Shop (Unit {0})
announce e = modify (λ s. record s { events = e ∷ lists_invalidated ∷ s.events })

unfoldable pub create_product : Env → CreateProductDto → ℕ → M Shop Product
unfolding insert_product
create_product env input user_id = do
  if is_negative input.price then throw price_negative else pure tt
  insert_product (new_product env input user_id)
  announce (product_created env.fresh_id)
  pure (new_product env input user_id)

abbrev pub may_change : RequesterContext → Product → Bool
may_change requester p = p.user_id == requester.id || has_permission requester.role product_moderate

-- The guards of `upgradeProduct`, on the row that was read.
unfoldable pub check_upgrade : ProductCategory → RequesterContext → Product → M Shop (Unit {0})
check_upgrade to requester p = do
  if may_change requester p then pure tt else throw product_not_owned
  if same_status p.status active then pure tt else throw product_not_active
  if is_spent p.stock then throw product_sold_out else pure tt
  if leb (product_category_rank to) (product_category_rank p.category)
      then throw category_not_higher
      else pure tt

unfoldable pub read_and_check :
    Option ℕ → ℕ → ProductCategory → RequesterContext → M Shop ProductCategory
unfolding check_upgrade
read_and_check tenant id to requester = do
  found ← gets (find_product tenant id)
  p ← or_throw found product_not_found
  check_upgrade to requester p
  pure p.category

unfoldable pub finish_upgrade :
    ℕ → ProductCategory → ProductCategory → RequesterContext → M Shop Product
unfolding apply_upgrade
finish_upgrade id from to requester = do
  p ← apply_upgrade id from to requester.id
  announce (product_upgraded id)
  pure p

unfoldable pub upgrade_product : Option ℕ → ℕ → ProductCategory → RequesterContext → M Shop Product
unfolding read_and_check finish_upgrade
upgrade_product tenant id to requester = do
  from ← read_and_check tenant id to requester
  finish_upgrade id from to requester

unfoldable pub delete_product : Env → ℕ → RequesterContext → M Shop (Unit {0})
unfolding soft_delete
delete_product env id requester = do
  found ← gets (find_product env.tenant_id id)
  p ← or_throw found product_not_found
  if may_change requester p then pure tt else throw product_not_owned
  gone ← soft_delete env.now id
  announce (product_deleted id)
