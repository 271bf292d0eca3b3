-- ===== src/Prelude/Lists.antt =====
-- Lists measured by native numbers, searched and counted by a Boolean test.
use Prim.Native.Nat.{ℕ, suc, ◌+◌, ◌≤◌}
use mathlib.Core.Path.{◌≡◌, refl, sym, ap, subst}
use mathlib.Core.Logic.{inl, inr}
use mathlib.Core.Bool.{Bool, true, false}
use mathlib.Core.List.{List, [], ◌∷◌, ◌++◌, map, Memᴰ}
use mathlib.Core.Option.{Option, none, some}
use native.Mathlib.Omega.{arith}
use backend_foundation.Prelude.Tests.{if◌then◌else◌, Bool-cases}

module _ {ℓ} {A : Type ℓ} where
  abbrev pub length : List A → ℕ
  length [] = 0
  length (x ∷ xs) = suc (length xs)

  pub length-append : (xs ys : List A) → length (xs ++ ys) ≡ length xs + length ys
  length-append [] ys = omega arith
  length-append (x ∷ xs) ys = omega (arith, length-append xs ys)

  -- The first item that passes a test.
  abbrev pub find : (A → Bool) → List A → Option A
  find p [] = none
  find p (x ∷ xs) = if p x then some x else find p xs

  -- How many items pass a test.
  abbrev pub count_where : (A → Bool) → List A → ℕ
  count_where p [] = 0
  count_where p (x ∷ xs) = (if p x then 1 else 0) + count_where p xs

  -- The items that pass a test, in order.
  abbrev pub keep : (A → Bool) → List A → List A
  keep p [] = []
  keep p (x ∷ xs) = if p x then x ∷ keep p xs else keep p xs

  abbrev pub All {κ} : (A → Type κ) → List A → Type κ
  All P [] = Unit
  All P (x ∷ xs) = P x × All P xs

module _ {ℓ} {A : Type ℓ} where
  pub find_sound :
      (p : A → Bool) (xs : List A) {a : A} → find p xs ≡ some a → Memᴰ a xs × (p a ≡ true)
  find_sound p [] e = cc
  find_sound p (x ∷ xs) {a} e = elim (Bool-cases (p x)) [
    | inl hit ↦
        let same : x ≡ a = ground arith in (Memᴰ.head (sym same), subst (λ y. p y ≡ true) same hit)
    | inr miss ↦ let (m, h) = find_sound p xs (ground arith) in (Memᴰ.tail m, h)
  ]

  -- A search fails exactly on the lists with no item that passes.
  pub find-none : (p : A → Bool) (xs : List A) {a : A} → find p xs ≡ none → Memᴰ a xs → p a ≡ false
  find-none p [] e m = elim m [ ]
  find-none p (x ∷ xs) e (Memᴰ.head same) = subst (λ y. p y ≡ false) (sym same) (ground arith)
  find-none p (x ∷ xs) e (Memᴰ.tail m) = find-none p xs (ground arith) m

  pub All-mem {κ} : (P : A → Type κ) (xs : List A) {a : A} → All P xs → Memᴰ a xs → P a
  All-mem P [] h m = elim m [ ]
  All-mem P (x ∷ xs) h (Memᴰ.head same) = subst P (sym same) h.0
  All-mem P (x ∷ xs) h (Memᴰ.tail m) = All-mem P xs h.1 m

  pub All-intro {κ} : (P : A → Type κ) (xs : List A) → ((a : A) → Memᴰ a xs → P a) → All P xs
  All-intro P [] h = tt
  All-intro P (x ∷ xs) h = (h x (Memᴰ.head refl), All-intro P xs (λ a m. h a (Memᴰ.tail m)))

  pub count_where-append :
      (p : A → Bool) (xs ys : List A)
      → count_where p (xs ++ ys) ≡ count_where p xs + count_where p ys
  count_where-append p [] ys = omega arith
  count_where-append p (x ∷ xs) ys = omega (arith, count_where-append p xs ys)

  pub count_where-le-length : (p : A → Bool) (xs : List A) → count_where p xs ≤ length xs
  count_where-le-length p [] = omega arith
  count_where-le-length p (x ∷ xs) = ground (arith, count_where-le-length p xs)

  pub count_where_pos :
      (p : A → Bool) (xs : List A) {a : A} → Memᴰ a xs → p a ≡ true → 1 ≤ count_where p xs
  count_where_pos p [] m h = elim m [ ]
  count_where_pos p (x ∷ xs) (Memᴰ.head e) h =
      let hit : p x ≡ true = subst (λ y. p y ≡ true) e h in ground arith
  count_where_pos p (x ∷ xs) (Memᴰ.tail m) h = ground (arith, count_where_pos p xs m h)

  pub count_where_zero :
      (p : A → Bool) (xs : List A) → All (λ a. p a ≡ false) xs → count_where p xs ≡ 0
  count_where_zero p [] h = refl
  count_where_zero p (x ∷ xs) h = ground (arith, h.0, count_where_zero p xs h.1)

  -- A test that implies another one counts no more.
  pub count_where_mono :
      (p q : A → Bool) (xs : List A)
      → ((a : A) → p a ≡ true → q a ≡ true)
      → count_where p xs ≤ count_where q xs
  count_where_mono p q [] h = omega arith
  count_where_mono p q (x ∷ xs) h = ground (arith, count_where_mono p q xs h, h x)

  pub mem-map {κ} :
      {B : Type κ} (f : A → B) (xs : List A) {b : B}
      → Memᴰ b (map f xs)
      → (a : A) × Memᴰ a xs × (b ≡ f a)
  mem-map f [] m = elim m [ ]
  mem-map f (x ∷ xs) (Memᴰ.head e) = (x, Memᴰ.head refl, e)
  mem-map f (x ∷ xs) (Memᴰ.tail m) = let (a, n, e) = mem-map f xs m in (a, Memᴰ.tail n, e)

  pub mem_map {κ} :
      {B : Type κ} (f : A → B) (xs : List A) {a : A} → Memᴰ a xs → Memᴰ (f a) (map f xs)
  mem_map f [] m = elim m [ ]
  mem_map f (x ∷ xs) (Memᴰ.head e) = Memᴰ.head (ap f e)
  mem_map f (x ∷ xs) (Memᴰ.tail m) = Memᴰ.tail (mem_map f xs m)

  pub mem-cons {κ} :
      (Q : A → Type κ) {x : A} {xs : List A} {a : A}
      → Memᴰ a (x ∷ xs)
      → Q x
      → (Memᴰ a xs → Q a)
      → Q a
  mem-cons Q (Memᴰ.head e) here later = subst Q (sym e) here
  mem-cons Q (Memᴰ.tail m) here later = later m
