-- ===== src/Products/History.antt =====
-- src/modules/products/product.service.ts: what holds over any sequence of whole calls.
use backend_foundation.Prelude.{
  ℕ, ◌==◌, ==_iff, ◌≡◌, refl, sym, ap, subst, ◌∙◌, ◌≤◌, true, false, Option, none, some, List, ◌∷◌,
  map, Memᴰ, find_sound, find-none, arith, Bool-cases, inl, inr,
}
use backend_foundation.Products.{
  Product, ProductCategory, standard, product_category_rank, ProductUpgradeLog, Shop, with_category,
  find_row, find_product, RequesterContext,
}
use backend_foundation.Products.Rows.{
  row_of, log_of, at_id, IdsOnce, map-IdsOnce, row_of-map, row_of-map-none, map-row_of,
  insert-IdsOnce, row_of-id,
}
use backend_foundation.Products.Steps.{MayUpgrade, ShopStep, same, inserted, removed, upgraded}

-- The category that the logs of a product tell, newest first.
abbrev pub told : Option ProductUpgradeLog → ProductCategory
told none = standard
told (some l) = l.to_category

abbrev pub LogsTell : List Product → List ProductUpgradeLog → Type 0
LogsTell ps ls = (id : ℕ) (p : Product) → row_of id ps ≡ some p → p.category ≡ told (log_of id ls)

abbrev pub LogsKnown : List Product → List ProductUpgradeLog → Type 0
LogsKnown ps ls = (id : ℕ) → row_of id ps ≡ none → log_of id ls ≡ none

-- No two rows have one id, the category of each row is the one that its newest log tells, and there
-- are no logs of unknown products.
pub record Consistent (s : Shop) : Type 0 where
  pub once : IdsOnce s.products
  pub tell : LogsTell s.products s.upgrade_logs
  pub known : LogsKnown s.products s.upgrade_logs

-- Every product is there still, with the same owner, in the same category or a higher one.
abbrev pub Rises : List Product → List Product → Type 0
Rises ps qs =
    (id : ℕ) (p : Product)
    → row_of id ps ≡ some p
    → (q : Product) × (row_of id qs ≡ some q)
      × (product_category_rank p.category ≤ product_category_rank q.category)
      × (q.user_id ≡ p.user_id)

visible :
    (tenant : Option ℕ) (id : ℕ) (s : Shop) {p : Product}
    → find_product tenant id s ≡ some p
    → Memᴰ p s.products × (p.id ≡ id)
unfolding find_product
visible tenant id s {p} e =
    let (m, hit) = find_sound _ s.products e in (m, (==_iff p.id id).0 (ground (arith, hit)))

eq_sym : (a b : ℕ) → (a == b) ≡ (b == a)
eq_sym a b = ground arith

found-row :
    (tenant : Option ℕ) (id : ℕ) (s : Shop) {p q : Product}
    → IdsOnce s.products
    → find_product tenant id s ≡ some p
    → row_of id s.products ≡ some q
    → q ≡ p
unfolding find_product
found-row tenant id s {p} {q} once e f =
    let (m, hit) = find_sound _ s.products e in
    let (n, hit') = find_sound _ s.products f in
    let pid : p.id ≡ id = (==_iff p.id id).0 (ground (arith, hit)) in
    once q p n m ((==_iff q.id id).0 hit' ∙ sym pid)

insert-Rises : (row : Product) (ps : List Product) → row_of row.id ps ≡ none → Rises ps (row ∷ ps)
insert-Rises row ps free id p e = elim (Bool-cases (row.id == id)) [
  | inl hit ↦ absurd (cc (free, e, ap (λ n. row_of n ps) ((==_iff row.id id).0 hit)))
  | inr miss ↦ (p, rw miss e, omega arith, refl)
]

upgrade-Rises :
    (tenant : Option ℕ) (id : ℕ) (to : ProductCategory) (requester : RequesterContext) (s : Shop)
    (p : Product)
    → IdsOnce s.products
    → MayUpgrade tenant id to requester s p
    → Rises s.products (map (at_id id (with_category to)) s.products)
upgrade-Rises tenant id to requester s p once may other q e = elim (Bool-cases (q.id == id)) [
  | inl hit ↦
      let this : other ≡ id = sym (row_of-id other s.products e) ∙ (==_iff q.id id).0 hit in
      let is : q ≡ p = found-row tenant id s once may.found (rw this at e) in
      let lower = ap (λ (x : Product). product_category_rank x.category) is in
      (
        with_category to q,
        row_of-map id (with_category to) (λ x. refl) other s.products e
            ∙ ap (λ x. some x) (rw hit refl),
        omega (arith, lower, may.higher),
        refl,
      )
  | inr miss ↦ (
    q,
    row_of-map id (with_category to) (λ x. refl) other s.products e
        ∙ ap (λ x. some x) (rw miss refl),
    omega arith,
    refl,
  )
]

-- `delete` of a row.
abbrev gone_at : ℕ → Product → Product
gone_at now q = record q { deleted_at = some now }

gone-category : (id now : ℕ) (q : Product) → (at_id id (gone_at now) q).category ≡ q.category
gone-category id now q = elim (Bool-cases (q.id == id)) [ inl e ↦ rw e refl | inr e ↦ rw e refl ]

gone-user : (id now : ℕ) (q : Product) → (at_id id (gone_at now) q).user_id ≡ q.user_id
gone-user id now q = elim (Bool-cases (q.id == id)) [ inl e ↦ rw e refl | inr e ↦ rw e refl ]

remove-Rises : (id now : ℕ) (ps : List Product) → Rises ps (map (at_id id (gone_at now)) ps)
remove-Rises id now ps other q e = (
  at_id id (gone_at now) q,
  row_of-map id (gone_at now) (λ x. refl) other ps e,
  (let e' = ap product_category_rank (gone-category id now q) in omega (arith, e')),
  gone-user id now q,
)

pub step-Rises : (s t : Shop) → Consistent s → ShopStep s t → Rises s.products t.products
unfolding find_row
step-Rises s t c (same e f) = subst (Rises s.products) (sym e) (λ id p h. (p, h, omega arith, refl))
step-Rises s t c (inserted row free std e f) =
    subst (Rises s.products) (sym e) (insert-Rises row s.products free)
step-Rises s t c (removed id now e f) =
    subst (Rises s.products) (sym e) (remove-Rises id now s.products)
step-Rises s t c (upgraded tenant id to requester p may e f) =
    subst (Rises s.products) (sym e) (upgrade-Rises tenant id to requester s p c.once may)

insert-LogsTell :
    (row : Product) (ps : List Product) (ls : List ProductUpgradeLog)
    → row_of row.id ps ≡ none
    → row.category ≡ standard
    → LogsTell ps ls
    → LogsKnown ps ls
    → LogsTell (row ∷ ps) ls
insert-LogsTell row ps ls free std tell known id p e = elim (Bool-cases (row.id == id)) [
  | inl hit ↦
      let is : row ≡ p = cc (rw hit at e) in
      let this : row.id ≡ id = (==_iff row.id id).0 hit in
      let none_told = ap told (rw this at (known row.id free)) in
      cc (ap (λ (x : Product). x.category) is, std, none_told)
  | inr miss ↦ tell id p (rw miss at e)
]

insert-LogsKnown :
    (row : Product) (ps : List Product) (ls : List ProductUpgradeLog)
    → LogsKnown ps ls
    → LogsKnown (row ∷ ps) ls
insert-LogsKnown row ps ls known id e = elim (Bool-cases (row.id == id)) [
  | inl hit ↦ absurd (cc (rw hit at e))
  | inr miss ↦ known id (rw miss at e)
]

remove-LogsTell :
    (id now : ℕ) (ps : List Product) (ls : List ProductUpgradeLog)
    → LogsTell ps ls
    → LogsTell (map (at_id id (gone_at now)) ps) ls
remove-LogsTell id now ps ls tell other q e =
    let (p, f, is) = map-row_of id (gone_at now) (λ x. refl) other ps e in
    cc (ap (λ (x : Product). x.category) is, gone-category id now p, tell other p f)

upgrade-LogsTell :
    (id : ℕ) (l : ProductUpgradeLog) (ps : List Product) (ls : List ProductUpgradeLog)
    → l.product_id ≡ id
    → LogsTell ps ls
    → LogsTell (map (at_id id (with_category l.to_category)) ps) (l ∷ ls)
upgrade-LogsTell id l ps ls about tell other q e =
    let (p, f, is) = map-row_of id (with_category l.to_category) (λ x. refl) other ps e in
    let pid = row_of-id other ps f in
    elim (Bool-cases (p.id == id)) [
      | inl hit ↦
          let this : l.product_id ≡ other = about ∙ sym ((==_iff p.id id).0 hit) ∙ pid in
          let named : (l.product_id == other) ≡ true = (==_iff l.product_id other).1 this in
          let shape : q ≡ with_category l.to_category p = is ∙ rw hit refl in
          rw named (ap (λ (x : Product). x.category) shape)
      | inr miss ↦
          let shape : q ≡ p = is ∙ rw miss refl in
          let other_log : (l.product_id == other) ≡ false =
            cc (miss, ap (λ n. n == id) pid, about, eq_sym l.product_id other) in
          rw other_log (ap (λ (x : Product). x.category) shape ∙ tell other p f)
    ]

upgrade-LogsKnown :
    (id : ℕ) (l : ProductUpgradeLog) (ps : List Product) (ls : List ProductUpgradeLog) (p : Product)
    → l.product_id ≡ id
    → Memᴰ p ps
    → p.id ≡ id
    → LogsKnown ps ls
    → LogsKnown (map (at_id id (with_category l.to_category)) ps) (l ∷ ls)
upgrade-LogsKnown id l ps ls p about m pid known other e =
    let f = row_of-map-none id (with_category l.to_category) (λ x. refl) other ps e in
    elim (Bool-cases (l.product_id == other)) [
      | inr miss ↦ rw miss (known other f)
      | inl hit ↦
          let this : p.id ≡ other = pid ∙ sym about ∙ (==_iff l.product_id other).0 hit in
          absurd (cc (find-none (λ x. x.id == other) ps f m, (==_iff p.id other).1 this))
    ]

pub step-Consistent : (s t : Shop) → Consistent s → ShopStep s t → Consistent t
unfolding find_row
step-Consistent s t c (same e f) = record {
  once = subst IdsOnce (sym e) c.once;
  tell = rw (e, f) c.tell;
  known = rw (e, f) c.known;
}
step-Consistent s t c (inserted row free std e f) = record {
  once = subst IdsOnce (sym e) (insert-IdsOnce row s.products free c.once);
  tell = rw (e, f) (insert-LogsTell row s.products s.upgrade_logs free std c.tell c.known);
  known = rw (e, f) (insert-LogsKnown row s.products s.upgrade_logs c.known);
}
step-Consistent s t c (removed id now e f) = record {
  once = subst IdsOnce (sym e) (map-IdsOnce id (gone_at now) (λ x. refl) s.products c.once);
  tell = rw (e, f) (remove-LogsTell id now s.products s.upgrade_logs c.tell);
  known =
      rw (e, f)
        (λ other g.
          c.known other (row_of-map-none id (gone_at now) (λ x. refl) other s.products g));
}
step-Consistent s t c (upgraded tenant id to requester p may e f) =
    let (m, hit) = visible tenant id s may.found in
    record {
      once =
          subst IdsOnce (sym e) (map-IdsOnce id (with_category to) (λ x. refl) s.products c.once);
      tell = rw (e, f) (upgrade-LogsTell id _ s.products s.upgrade_logs refl c.tell);
      known = rw (e, f) (upgrade-LogsKnown id _ s.products s.upgrade_logs p refl m hit c.known);
    }
