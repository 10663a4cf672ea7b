-- ===== src/Prelude/Lists.antt =====
-- Lists measured by native numbers, Boolean tests over lists, and the operations on rows of a table.
use Prim.Native.Nat.{ℕ, suc, ◌+◌, ◌≤◌}
use mathlib.Core.Path.{◌≡◌, refl, ap}
use mathlib.Core.Bool.{Bool, true, false, ◌&&◌, ◌||◌}
use mathlib.Core.Option.{Option, none, some}
use mathlib.Core.List.{List, [], ◌∷◌, ◌++◌, map}
use native.Mathlib.Omega.{arith}
use find_me_gamer.Prelude.Tests.{if◌then◌else◌}

module _ {ℓ} {A : Type ℓ} where
  abbrev pub length : List A → ℕ
  length [] = 0
  length (x ∷ xs) = suc (length xs)

  -- `not xs`
  abbrev pub is_empty : List A → Bool
  is_empty [] = true
  is_empty (x ∷ xs) = false

  -- Python's `all` and `any` over a test.
  abbrev pub all : (A → Bool) → List A → Bool
  all p [] = true
  all p (x ∷ xs) = p x && all p xs

  abbrev pub any : (A → Bool) → List A → Bool
  any p [] = false
  any p (x ∷ xs) = p x || any p xs

  -- The rows that a `where` clause selects.
  abbrev pub filter : (A → Bool) → List A → List A
  filter p [] = []
  filter p (x ∷ xs) = if p x then x ∷ filter p xs else filter p xs

  -- The first row that a `where` clause selects, or `None`.
  abbrev pub find : (A → Bool) → List A → Option A
  find p [] = none
  find p (x ∷ xs) = if p x then some x else find p xs

  -- The row that `find` returns, changed in place.
  abbrev pub update : (A → Bool) → (A → A) → List A → List A
  update p f [] = []
  update p f (x ∷ xs) = if p x then f x ∷ xs else x ∷ update p f xs

  abbrev pub count_if : (A → Bool) → List A → ℕ
  count_if p [] = 0
  count_if p (x ∷ xs) = (if p x then 1 else 0) + count_if p xs

  pub length-append : (xs ys : List A) → length (xs ++ ys) ≡ length xs + length ys
  length-append [] ys = omega arith
  length-append (x ∷ xs) ys = omega (arith, length-append xs ys)

  pub count_if-le : (p : A → Bool) (xs : List A) → count_if p xs ≤ length xs
  count_if-le p [] = omega arith
  count_if-le p (x ∷ xs) = ground (arith, count_if-le p xs)

pub length-map {ℓ κ} :
    {A : Type ℓ} {B : Type κ} (f : A → B) (xs : List A) → length (map f xs) ≡ length xs
length-map f [] = refl
length-map f (x ∷ xs) = ap suc (length-map f xs)

-- A test that every row passes is passed by the row that is found, by what a `where` clause keeps,
-- and after one row was changed to another that passes.
module _ {ℓ} {A : Type ℓ} (c p : A → Bool) where
  pub all-find : (xs : List A) {x : A} → all c xs ≡ true → find p xs ≡ some x → c x ≡ true
  all-find [] h found = cc
  all-find (y ∷ ys) {x} h found = ground (arith, all-find ys {x = x})

  pub all-filter : (xs : List A) → all c xs ≡ true → all c (filter p xs) ≡ true
  all-filter [] h = refl
  all-filter (x ∷ xs) h = ground (arith, all-filter xs)

  pub all-update :
      (f : A → A) (xs : List A) {x : A}
      → all c xs ≡ true
      → find p xs ≡ some x
      → c (f x) ≡ true
      → all c (update p f xs) ≡ true
  all-update f [] h found changed = refl
  all-update f (y ∷ ys) {x} h found changed = ground (arith, all-update f ys {x = x})

pub all_mono {ℓ} :
    {A : Type ℓ} (p q : A → Bool) (xs : List A)
    → ((x : A) → p x ≡ true → q x ≡ true)
    → all p xs ≡ true
    → all q xs ≡ true
all_mono p q [] weaker h = refl
all_mono p q (x ∷ xs) weaker h = ground (arith, weaker x, all_mono p q xs weaker)

module _ {ℓ} {A : Type ℓ} (c : A → Bool) where
  pub all-append : (xs ys : List A) → all c (xs ++ ys) ≡ all c xs && all c ys
  all-append [] ys = refl
  all-append (x ∷ xs) ys = ground (arith, all-append xs ys)

-- One row changed in place, and what a `where` clause then selects.
module _ {ℓ} {A : Type ℓ} (c p : A → Bool) (f : A → A) where
  pub find-update :
      (xs : List A) {x : A}
      → find p xs ≡ some x
      → p (f x) ≡ true
      → find p (update p f xs) ≡ some (f x)
  find-update [] found keeps = cc
  find-update (y ∷ ys) {x} found keeps = ground (arith, find-update ys {x = x})

  pub update-update :
      (g : A → A) (xs : List A) {x : A}
      → find p xs ≡ some x
      → p (f x) ≡ true
      → g (f x) ≡ g x
      → update p g (update p f xs) ≡ update p g xs
  update-update g [] found keeps same = refl
  update-update g (y ∷ ys) {x} found keeps same = ground (arith, update-update g ys {x = x})

  pub filter-update_selected :
      (xs : List A) {x : A}
      → filter c xs ≡ []
      → find p xs ≡ some x
      → c (f x) ≡ true
      → filter c (update p f xs) ≡ f x ∷ []
  filter-update_selected [] none_selected found selected = cc
  filter-update_selected (y ∷ ys) {x} none_selected found selected =
      ground (arith, filter-update_selected ys {x = x})

  pub filter-update_rejected :
      (xs : List A) {x : A}
      → filter c xs ≡ []
      → find p xs ≡ some x
      → c (f x) ≡ false
      → filter c (update p f xs) ≡ []
  filter-update_rejected [] none_selected found rejected = refl
  filter-update_rejected (y ∷ ys) {x} none_selected found rejected =
      ground (arith, filter-update_rejected ys {x = x})

pub find-passes {ℓ} :
    {A : Type ℓ} (p : A → Bool) (xs : List A) {x : A} → find p xs ≡ some x → p x ≡ true
find-passes p [] found = cc
find-passes p (y ∷ ys) {x} found = ground (arith, find-passes p ys {x = x})
