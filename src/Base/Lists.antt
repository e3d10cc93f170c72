-- ===== src/Base/Lists.antt =====
-- Lists measured by native numbers, and predicates on their items.
use Prim.Native.Nat.{ℕ, zero, suc, ◌+◌, ◌≤◌}
use mathlib.Core.Path.{◌≡◌, refl}
use mathlib.Core.Bool.{Bool, false, ◌||◌}
use mathlib.Core.Option.{Option, none, some}
use mathlib.Core.List.{List, [], ◌∷◌, ◌++◌}
use native.Mathlib.Omega.{arith}
use task.Base.Tests.{if◌then◌else◌}

-- Every item has the property.
abbrev pub All {ℓ κ} : {A : Type ℓ} → (A → Type κ) → List A → Type κ
All Good [] = Unit
All Good (item ∷ rest) = Good item × All Good rest

module _ {ℓ} {A : Type ℓ} where
  abbrev pub length : List A → ℕ
  length [] = 0
  length (x ∷ xs) = suc (length xs)

  pub length-append : (xs ys : List A) → length (xs ++ ys) ≡ length xs + length ys
  length-append [] ys = omega arith
  length-append (x ∷ xs) ys = omega (arith, length-append xs ys)

  -- The items that pass a test, in order: the rows of a SELECT with that WHERE clause.
  abbrev pub select : (A → Bool) → List A → List A
  select p [] = []
  select p (x ∷ xs) = if p x then x ∷ select p xs else select p xs

  -- The first item that passes: a query by a unique key.
  abbrev pub find_first : (A → Bool) → List A → Option A
  find_first p [] = none
  find_first p (x ∷ xs) = if p x then some x else find_first p xs

  -- LIMIT and OFFSET.
  abbrev pub take : ℕ → List A → List A
  take zero xs = []
  take (suc n) [] = []
  take (suc n) (x ∷ xs) = x ∷ take n xs

  abbrev pub drop : ℕ → List A → List A
  drop zero xs = xs
  drop (suc n) [] = []
  drop (suc n) (x ∷ xs) = drop n xs

  abbrev pub any : (A → Bool) → List A → Bool
  any p [] = false
  any p (x ∷ xs) = p x || any p xs

  -- Every item that passes, replaced: an UPDATE with that WHERE clause.
  abbrev pub update_where : (A → Bool) → (A → A) → List A → List A
  update_where p f [] = []
  update_where p f (x ∷ xs) = (if p x then f x else x) ∷ update_where p f xs

  -- Every item that passes, removed: a DELETE with that WHERE clause.
  abbrev pub delete_where : (A → Bool) → List A → List A
  delete_where p [] = []
  delete_where p (x ∷ xs) = if p x then delete_where p xs else x ∷ delete_where p xs

  abbrev pub sum_of : (A → ℕ) → List A → ℕ
  sum_of f [] = 0
  sum_of f (x ∷ xs) = f x + sum_of f xs

  pub sum_of-append : (f : A → ℕ) (xs ys : List A) → sum_of f (xs ++ ys) ≡ sum_of f xs + sum_of f ys
  sum_of-append f [] ys = omega arith
  sum_of-append f (x ∷ xs) ys = omega (arith, sum_of-append f xs ys)

  -- Item by item smaller, so smaller in sum.
  pub sum_of_mono :
      (f g : A → ℕ) → ((a : A) → f a ≤ g a) → (xs : List A) → sum_of f xs ≤ sum_of g xs
  sum_of_mono f g h [] = omega arith
  sum_of_mono f g h (x ∷ xs) = omega (arith, h x, sum_of_mono f g h xs)

  pub All-append {κ} :
      (Good : A → Type κ) (front back : List A)
      → All Good back
      → All Good front
      → All Good (front ++ back)
  All-append Good [] back later sooner = later
  All-append Good (item ∷ front) back later sooner =
      (sooner.0, All-append Good front back later sooner.1)

  -- What no item passes leaves nothing to add up, if the weight of an item that fails is 0.
  pub sum_of-eq-zero :
      (p : A → Bool) (w : A → ℕ)
      → ((a : A) → p a ≡ false → w a ≡ 0)
      → (xs : List A) → any p xs ≡ false
      → sum_of w xs ≡ 0
  sum_of-eq-zero p w h [] e = refl
  sum_of-eq-zero p w h (x ∷ xs) e = ground (arith, h x, sum_of-eq-zero p w h xs)

  -- 1 for an item that passes a test, and 0 for one that does not.
  abbrev pub mark : (A → Bool) → A → ℕ
  mark p x = if p x then 1 else 0

  pub length-select : (p : A → Bool) (xs : List A) → length (select p xs) ≡ sum_of (mark p) xs
  length-select p [] = refl
  length-select p (x ∷ xs) = ground (arith, length-select p xs)

  -- ORDER BY: a stable insertion sort by a test that says which of two rows may stand first.
  abbrev pub insert_by : (A → A → Bool) → A → List A → List A
  insert_by before x [] = x ∷ []
  insert_by before x (y ∷ ys) = if before x y then x ∷ y ∷ ys else y ∷ insert_by before x ys

  abbrev pub sort_by : (A → A → Bool) → List A → List A
  sort_by before [] = []
  sort_by before (x ∷ xs) = insert_by before x (sort_by before xs)

  sum_of-insert_by :
      (before : A → A → Bool) (f : A → ℕ) (x : A) (ys : List A)
      → sum_of f (insert_by before x ys) ≡ f x + sum_of f ys
  sum_of-insert_by before f x [] = refl
  sum_of-insert_by before f x (y ∷ ys) = ground (arith, sum_of-insert_by before f x ys)

  -- A sum does not depend on the order of the rows.
  pub sum_of-sort_by :
      (before : A → A → Bool) (f : A → ℕ) (xs : List A) → sum_of f (sort_by before xs) ≡ sum_of f xs
  sum_of-sort_by before f [] = refl
  sum_of-sort_by before f (x ∷ xs) =
      omega (arith, sum_of-insert_by before f x (sort_by before xs), sum_of-sort_by before f xs)

  -- A sum over the rows that pass, as a sum over all rows.
  pub sum_of-select :
      (p : A → Bool) (f : A → ℕ) (xs : List A)
      → sum_of f (select p xs) ≡ sum_of (λ a. if p a then f a else 0) xs
  sum_of-select p f [] = refl
  sum_of-select p f (x ∷ xs) = ground (arith, sum_of-select p f xs)

  pub sum_of_congr :
      (f g : A → ℕ) → ((a : A) → f a ≡ g a) → (xs : List A) → sum_of f xs ≡ sum_of g xs
  sum_of_congr f g h [] = refl
  sum_of_congr f g h (x ∷ xs) = omega (arith, h x, sum_of_congr f g h xs)

  pub update_where_none :
      (p : A → Bool) (f : A → A) (xs : List A) → any p xs ≡ false → update_where p f xs ≡ xs
  update_where_none p f [] h = refl
  update_where_none p f (x ∷ xs) h = ground (arith, update_where_none p f xs)
