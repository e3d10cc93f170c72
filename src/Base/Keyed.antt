-- ===== src/Base/Keyed.antt =====
-- Tables as lists of rows with a numeric primary key: lookup, update and insert by the key.
use Prim.Native.Nat.{ℕ, ◌+◌}
use mathlib.Core.Path.{◌≡◌, refl}
use mathlib.Core.Logic.{inl, inr, ◌≢◌}
use mathlib.Core.Bool.{Bool, true, false, ◌||◌}
use mathlib.Core.Option.{Option, none, some}
use mathlib.Core.List.{List, [], ◌∷◌, ◌++◌}
use native.Mathlib.Omega.{arith}
use task.Base.Tests.{◌==◌, if◌then◌else◌, Bool-cases, ==_iff}
use task.Base.Lists.{any, find_first, update_where, sum_of}

module _ {A : Type 0} (key : A → ℕ) where
  abbrev pub has : ℕ → List A → Bool
  has id rows = any (λ a. key a == id) rows

  abbrev pub fetch : ℕ → List A → Option A
  fetch id rows = find_first (λ a. key a == id) rows

  abbrev pub change : ℕ → (A → A) → List A → List A
  change id f rows = update_where (λ a. key a == id) f rows

  -- No two rows have one key.
  abbrev pub Distinct : List A → Type 0
  Distinct [] = Unit
  Distinct (a ∷ rows) = (has (key a) rows ≡ false) × Distinct rows

  pub fetch-key : (id : ℕ) (rows : List A) {a : A} → fetch id rows ≡ some a → key a ≡ id
  fetch-key id [] h = cc
  fetch-key id (b ∷ rows) {a} h = ground (arith, fetch-key id rows {a = a})

  pub fetch-has : (id : ℕ) (rows : List A) {a : A} → fetch id rows ≡ some a → has id rows ≡ true
  fetch-has id [] h = cc
  fetch-has id (b ∷ rows) {a} h = ground (arith, fetch-has id rows {a = a})

  pub change_absent :
      (id : ℕ) (f : A → A) (rows : List A) → has id rows ≡ false → change id f rows ≡ rows
  change_absent id f [] h = refl
  change_absent id f (b ∷ rows) h = ground (arith, change_absent id f rows)

  -- An update that keeps the keys keeps what is found under the others.
  pub has-change :
      (id j : ℕ) (f : A → A)
      → ((a : A) → key (f a) ≡ key a)
      → (rows : List A) → has j (change id f rows) ≡ has j rows
  has-change id j f same [] = refl
  has-change id j f same (b ∷ rows) = ground (arith, same b, has-change id j f same rows)

  pub change-Distinct :
      (id : ℕ) (f : A → A)
      → ((a : A) → key (f a) ≡ key a)
      → (rows : List A) → Distinct rows
      → Distinct (change id f rows)
  change-Distinct id f same [] d = tt
  change-Distinct id f same (b ∷ rows) d =
      ground (arith, same b, has-change id (key b) f same rows, change-Distinct id f same rows d.1)

  pub fetch-change :
      (id : ℕ) (f : A → A)
      → ((a : A) → key (f a) ≡ key a)
      → (rows : List A) {a : A} → fetch id rows ≡ some a
      → fetch id (change id f rows) ≡ some (f a)
  fetch-change id f same [] h = cc
  fetch-change id f same (b ∷ rows) {a} h =
      ground (arith, same b, fetch-change id f same rows {a = a})

  pub fetch-change_ne :
      (id j : ℕ) (f : A → A)
      → ((a : A) → key (f a) ≡ key a)
      → (rows : List A) → j ≢ id
      → fetch j (change id f rows) ≡ fetch j rows
  fetch-change_ne id j f same [] h = refl
  fetch-change_ne id j f same (b ∷ rows) h =
      ground (arith, same b, fetch-change_ne id j f same rows h)

  has-append :
      (j : ℕ) (rows : List A) (a : A) → has j (rows ++ a ∷ []) ≡ (has j rows || (key a == j))
  has-append j [] a = ground arith
  has-append j (b ∷ rows) a = ground (arith, has-append j rows a)

  pub insert-Distinct :
      (rows : List A) (a : A) → Distinct rows → has (key a) rows ≡ false → Distinct (rows ++ a ∷ [])
  insert-Distinct [] a d h = (refl, tt)
  insert-Distinct (b ∷ rows) a d h =
      ground (arith, has-append (key b) rows a, insert-Distinct rows a d.1)

  pub fetch-insert :
      (j : ℕ) (rows : List A) (a : A)
      → has (key a) rows ≡ false
      → fetch j (rows ++ a ∷ []) ≡ (if key a == j then some a else fetch j rows)
  fetch-insert j [] a h = refl
  fetch-insert j (b ∷ rows) a h = ground (arith, fetch-insert j rows a)

  -- With distinct keys an update trades the weight of one row for that of its new form.
  pub sum_of-change :
      (w : A → ℕ) (id : ℕ) (f : A → A) (rows : List A) {a : A}
      → Distinct rows
      → fetch id rows ≡ some a
      → sum_of w (change id f rows) + w a ≡ sum_of w rows + w (f a)
  sum_of-change w id f [] d h = cc
  sum_of-change w id f (b ∷ rows) {a} d h = elim (Bool-cases (key b == id)) [
    | inl here ↦ ground (arith, change_absent id f rows, ==_iff (key b) id)
    | inr later ↦ ground (arith, sum_of-change w id f rows {a = a} d.1)
  ]

  -- The weight of the rows under other keys.
  abbrev pub besides : (A → ℕ) → ℕ → A → ℕ
  besides w id a = if key a == id then 0 else w a

  besides_absent :
      (w : A → ℕ) (id : ℕ) (rows : List A)
      → has id rows ≡ false
      → sum_of (besides w id) rows ≡ sum_of w rows
  besides_absent w id [] h = refl
  besides_absent w id (b ∷ rows) h = ground (arith, besides_absent w id rows)

  pub sum_of-besides :
      (w : A → ℕ) (id : ℕ) (rows : List A) {a : A}
      → Distinct rows
      → fetch id rows ≡ some a
      → sum_of w rows ≡ sum_of (besides w id) rows + w a
  sum_of-besides w id [] d h = cc
  sum_of-besides w id (b ∷ rows) {a} d h = elim (Bool-cases (key b == id)) [
    | inl here ↦ ground (arith, besides_absent w id rows, ==_iff (key b) id)
    | inr later ↦ ground (arith, sum_of-besides w id rows {a = a} d.1)
  ]

  pub any-fetch :
      (p : A → Bool) (id : ℕ) (rows : List A) {a : A}
      → any p rows ≡ false
      → fetch id rows ≡ some a
      → p a ≡ false
  any-fetch p id [] h e = cc
  any-fetch p id (b ∷ rows) {a} h e = ground (arith, any-fetch p id rows {a = a})

  pub fetch-change-none :
      (id : ℕ) (f : A → A)
      → ((a : A) → key (f a) ≡ key a)
      → (rows : List A) → fetch id rows ≡ none
      → fetch id (change id f rows) ≡ none
  fetch-change-none id f same [] h = refl
  fetch-change-none id f same (b ∷ rows) h =
      ground (arith, same b, fetch-change-none id f same rows)
