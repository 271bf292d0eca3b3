-- ===== src/Pagination/Cover.antt =====
-- src/shared/pagination.ts: the pages of a list, one after the other, are the list.
use backend_foundation.Prelude.{
  ℕ, zero, suc, ◌+◌, ◌-◌, ◌*◌, ◌/◌, ◌≤◌, leb, ◌≡◌, refl, sym, ap, ◌∙◌, List, [], ◌∷◌, ◌++◌, length,
  arith, Bool-cases, inl, inr,
}
use native.Mathlib.Nat.{suc-mul, zero-mul, div-add-mod', mod-lt}
use backend_foundation.Pagination.{pagination, skip_rows, take_rows, window, total_pages}

module _ {A : Type 0} where
  take-nil : (n : ℕ) → take_rows {A = A} n [] ≡ []
  take-nil zero = refl
  take-nil (suc n) = refl

  take-add :
      (a b : ℕ) (xs : List A)
      → take_rows (a + b) xs ≡ take_rows a xs ++ take_rows b (skip_rows a xs)
  take-add zero b xs = let e : 0 + b ≡ b = omega arith in rw e refl
  take-add (suc a) b [] = take-nil (suc a + b) ∙ sym (take-nil b)
  take-add (suc a) b (x ∷ xs) =
      let e : suc a + b ≡ suc (a + b) = omega arith in rw e (ap (λ ys. x ∷ ys) (take-add a b xs))

  take-all : (n : ℕ) (xs : List A) → length xs ≤ n → take_rows n xs ≡ xs
  take-all n [] h = take-nil n
  take-all zero (x ∷ xs) h = absurd (omega (arith, h))
  take-all (suc n) (x ∷ xs) h = ap (λ ys. x ∷ ys) (take-all n xs (omega (arith, h)))

  -- The first pages, one after the other.
  abbrev pub pages_upto : ℕ → ℕ → List A → List A
  pages_upto zero limit xs = []
  pages_upto (suc k) limit xs = pages_upto k limit xs ++ window (pagination (suc k) limit) xs

  pages-take : (k limit : ℕ) (xs : List A) → pages_upto k limit xs ≡ take_rows (k * limit) xs
  unfolding window pagination
  pages-take zero limit xs = let e : 0 * limit ≡ 0 = omega arith in rw e refl
  pages-take (suc k) limit xs =
      let skipped : (suc k - 1) * limit ≡ k * limit = ap (λ n. n * limit) (omega arith) in
      let further : suc k * limit ≡ k * limit + limit = suc-mul k limit in
      rw (pages-take k limit xs, skipped, further) (sym (take-add (k * limit) limit xs))

ceil-covers : (total limit : ℕ) → 1 ≤ limit → total ≤ (total + (limit - 1)) / limit * limit
ceil-covers total limit h =
    let whole = div-add-mod' (total + (limit - 1)) limit in
    let rest = mod-lt (total + (limit - 1)) {m = limit} (omega (arith, h)) in
    omega (arith, whole, rest, h)

total_pages-enough : (total limit : ℕ) → 1 ≤ limit → total ≤ total_pages total limit * limit
unfolding total_pages
total_pages-enough total limit h =
    let q = (total + (limit - 1)) / limit in
    elim (Bool-cases (leb 1 q)) [
      | inl e ↦ rw e (ceil-covers total limit h)
      | inr e ↦
          let none_left : q ≡ 0 = ground (arith, e) in
          let empty : q * limit ≡ 0 = ap (λ n. n * limit) none_left ∙ zero-mul limit in
          rw e (omega (arith, ceil-covers total limit h, empty))
    ]

-- The pages 1 to `totalPages` of a list, one after the other, are the list: nothing is left out,
-- shown twice or moved. The limit is at least 1, as the schema of the query asks.
pub pages_cover :
    {A : Type 0} (limit : ℕ) (xs : List A)
    → 1 ≤ limit
    → pages_upto (total_pages (length xs) limit) limit xs ≡ xs
pages_cover limit xs h =
    pages-take (total_pages (length xs) limit) limit xs
    ∙ take-all (total_pages (length xs) limit * limit) xs (total_pages-enough (length xs) limit h)
