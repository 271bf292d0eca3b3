-- ===== src/Products/Rows.antt =====
-- src/modules/products: the table of products after a change of the rows with one id.
use backend_foundation.Prelude.{
  ℕ, ◌==◌, ==_iff, ◌≡◌, refl, sym, ap, ◌∙◌, Option, none, some, List, [], ◌∷◌, map, Memᴰ, find,
  find_sound, find-none, Bool-cases, Option-cases, inl, inr, if◌then◌else◌,
}
use backend_foundation.Gate.KeySteps.{find-map}
use backend_foundation.Products.{Product, ProductUpgradeLog}

abbrev pub row_of : ℕ → List Product → Option Product
row_of id ps = find (λ p. p.id == id) ps

abbrev pub log_of : ℕ → List ProductUpgradeLog → Option ProductUpgradeLog
log_of id ls = find (λ l. l.product_id == id) ls

abbrev pub at_id : ℕ → (Product → Product) → Product → Product
at_id id change q = if q.id == id then change q else q

-- Two rows with one id are one row.
abbrev pub IdsOnce : List Product → Type 0
IdsOnce ps = (p q : Product) → Memᴰ p ps → Memᴰ q ps → p.id ≡ q.id → p ≡ q

mem-map :
    (f : Product → Product) (ps : List Product) {y : Product}
    → Memᴰ y (map f ps)
    → (x : Product) × Memᴰ x ps × (y ≡ f x)
mem-map f [] m = elim m [ ]
mem-map f (p ∷ ps) (Memᴰ.head e) = (p, Memᴰ.head refl, e)
mem-map f (p ∷ ps) (Memᴰ.tail m) = let (x, n, e) = mem-map f ps m in (x, Memᴰ.tail n, e)

-- A change of one row's columns other than the id.
abbrev pub KeepsId : (Product → Product) → Type 0
KeepsId change = (q : Product) → (change q).id ≡ q.id

module _ (id : ℕ) (change : Product → Product) (keeps : KeepsId change) where
  at_id-id : (q : Product) → (at_id id change q).id ≡ q.id
  at_id-id q = elim (Bool-cases (q.id == id)) [ inl e ↦ rw e (keeps q) | inr e ↦ rw e refl ]

  pub map-IdsOnce : (ps : List Product) → IdsOnce ps → IdsOnce (map (at_id id change) ps)
  map-IdsOnce ps once p q m n e =
      let (x, mx, ex) = mem-map (at_id id change) ps m in
      let (y, my, ey) = mem-map (at_id id change) ps n in
      let ids : x.id ≡ y.id = cc (ex, ey, e, at_id-id x, at_id-id y) in
      cc (ex, ey, once x y mx my ids)

  pub row_of-map :
      (other : ℕ) (ps : List Product) {p : Product}
      → row_of other ps ≡ some p
      → row_of other (map (at_id id change) ps) ≡ some (at_id id change p)
  row_of-map other ps e =
      find-map (λ p. p.id == other) (at_id id change) ps (λ x. ap (λ n. n == other) (at_id-id x)) e

  pub row_of-map-none :
      (other : ℕ) (ps : List Product)
      → row_of other (map (at_id id change) ps) ≡ none
      → row_of other ps ≡ none
  row_of-map-none other ps e = elim (Option-cases (row_of other ps)) [
    | inl f ↦ f
    | inr (p, f) ↦ absurd (cc (e, row_of-map other ps f))
  ]

  pub map-row_of :
      (other : ℕ) (ps : List Product) {q : Product}
      → row_of other (map (at_id id change) ps) ≡ some q
      → (p : Product) × (row_of other ps ≡ some p) × (q ≡ at_id id change p)
  map-row_of other ps {q} e = elim (Option-cases (row_of other ps)) [
    | inr (p, f) ↦ (p, f, cc (e, row_of-map other ps f))
    | inl f ↦
        let (m, hit) = find_sound (λ x. x.id == other) (map (at_id id change) ps) e in
        let (x, n, is) = mem-map (at_id id change) ps m in
        let miss = find-none (λ x. x.id == other) ps f n in
        let ids : x.id ≡ q.id = sym (at_id-id x) ∙ ap (λ (y : Product). y.id) (sym is) in
        absurd (cc (miss, hit, ap (λ n. n == other) ids))
  ]

pub insert-IdsOnce :
    (row : Product) (ps : List Product) → row_of row.id ps ≡ none → IdsOnce ps → IdsOnce (row ∷ ps)
insert-IdsOnce row ps free once p q (Memᴰ.head e) (Memᴰ.head f) same = e ∙ sym f
insert-IdsOnce row ps free once p q (Memᴰ.head e) (Memᴰ.tail n) same =
    let miss = find-none (λ x. x.id == row.id) ps free n in
    let hit : q.id ≡ row.id = sym same ∙ ap (λ (x : Product). x.id) e in
    absurd (cc (miss, (==_iff q.id row.id).1 hit))
insert-IdsOnce row ps free once p q (Memᴰ.tail m) (Memᴰ.head f) same =
    let miss = find-none (λ x. x.id == row.id) ps free m in
    let hit : p.id ≡ row.id = same ∙ ap (λ (x : Product). x.id) f in
    absurd (cc (miss, (==_iff p.id row.id).1 hit))
insert-IdsOnce row ps free once p q (Memᴰ.tail m) (Memᴰ.tail n) same = once p q m n same

pub row_of-id : (id : ℕ) (ps : List Product) {p : Product} → row_of id ps ≡ some p → p.id ≡ id
row_of-id id ps {p} e = (==_iff p.id id).0 (find_sound (λ x. x.id == id) ps e).1
