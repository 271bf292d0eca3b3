-- ===== src/Pagination.antt =====
-- src/shared/pagination.ts: the pages of a list.
pub mod Cover
use backend_foundation.Prelude.{ℕ, zero, suc, ◌+◌, ◌-◌, ◌*◌, ◌/◌, leb, List, [], ◌∷◌, if◌then◌else◌}

pub record PaginationParams : Type 0 where
  pub skip : ℕ
  pub take : ℕ

unfoldable pub pagination : ℕ → ℕ → PaginationParams
pagination page limit = record { skip = (page - 1) * limit; take = limit }

-- `skip` and `take` of Prisma, on the rows in order.
abbrev pub skip_rows {ℓ} : {A : Type ℓ} → ℕ → List A → List A
skip_rows zero xs = xs
skip_rows (suc n) [] = []
skip_rows (suc n) (x ∷ xs) = skip_rows n xs

abbrev pub take_rows {ℓ} : {A : Type ℓ} → ℕ → List A → List A
take_rows zero xs = []
take_rows (suc n) [] = []
take_rows (suc n) (x ∷ xs) = x ∷ take_rows n xs

unfoldable pub window {ℓ} : {A : Type ℓ} → PaginationParams → List A → List A
window params xs = take_rows params.take (skip_rows params.skip xs)

-- `Math.max(1, Math.ceil(total / limit))`; the limits are at least 1.
unfoldable pub total_pages : ℕ → ℕ → ℕ
total_pages total limit =
    let pages = (total + (limit - 1)) / limit in if leb 1 pages then pages else 1

pub record PaginatedResult (A : Type 0) : Type 0 where
  pub rows : List A
  pub page : ℕ
  pub limit : ℕ
  pub total : ℕ
  pub pages : ℕ

unfoldable pub build_paginated_result : {A : Type 0} → List A → ℕ → ℕ → ℕ → PaginatedResult A
unfolding total_pages
build_paginated_result rows total page limit = record {
  rows = rows;
  page = page;
  limit = limit;
  total = total;
  pages = total_pages total limit;
}
