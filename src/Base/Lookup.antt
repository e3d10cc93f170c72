-- ===== src/Base/Lookup.antt =====
-- What a query finds after an insert, an update or a delete.
use Prim.Native.Nat.{ℕ}
use mathlib.Core.Path.{◌≡◌, refl, subst}
use mathlib.Core.Logic.{inl, inr}
use mathlib.Core.Bool.{Bool, true, false}
use mathlib.Core.Option.{Option, none, some}
use mathlib.Core.List.{List, [], ◌∷◌, ◌++◌}
use native.Mathlib.Omega.{arith}
use task.Base.Tests.{if◌then◌else◌, Bool-cases, ==_refl, ==_iff}
use task.Base.Lists.{any, All, find_first, update_where, delete_where, select, insert_by, sort_by}
use task.Base.Keyed.{Distinct, fetch, fetch-has}

module _ {A : Type 0} where
  abbrev pub updated : (A → Bool) → (A → A) → A → A
  updated q f a = if q a then f a else a

  abbrev pub updated_found : (A → Bool) → (A → A) → Option A → Option A
  updated_found q f none = none
  updated_found q f (some a) = some (updated q f a)

  pub find_first-holds :
      (p : A → Bool) (xs : List A) {a : A} → find_first p xs ≡ some a → p a ≡ true
  find_first-holds p [] h = cc
  find_first-holds p (x ∷ xs) {a} h = elim (Bool-cases (p x)) [
    | inl hit ↦ ground arith
    | inr miss ↦ ground (arith, find_first-holds p xs {a = a})
  ]

  -- An update that the test does not see.
  pub find_first-update :
      (p q : A → Bool) (f : A → A)
      → ((a : A) → p (f a) ≡ p a)
      → (xs : List A) → find_first p (update_where q f xs) ≡ updated_found q f (find_first p xs)
  find_first-update p q f same [] = refl
  find_first-update p q f same (x ∷ xs) = ground (arith, same x, find_first-update p q f same xs)

  pub find_first-append_new :
      (p : A → Bool) (xs : List A) (x : A)
      → find_first p xs ≡ none
      → p x ≡ true
      → find_first p (xs ++ x ∷ []) ≡ some x
  find_first-append_new p [] x h e = ground arith
  find_first-append_new p (y ∷ xs) x h e = ground (arith, find_first-append_new p xs x)

  pub find_first-append_old :
      (p : A → Bool) (xs ys : List A) {a : A}
      → find_first p xs ≡ some a
      → find_first p (xs ++ ys) ≡ some a
  find_first-append_old p [] ys h = cc
  find_first-append_old p (y ∷ xs) ys {a} h = ground (arith, find_first-append_old p xs ys {a = a})

  pub find_first-delete : (p : A → Bool) (xs : List A) → find_first p (delete_where p xs) ≡ none
  find_first-delete p [] = refl
  find_first-delete p (x ∷ xs) = ground (arith, find_first-delete p xs)

  pub any-none : (p : A → Bool) (xs : List A) → any p xs ≡ false → find_first p xs ≡ none
  any-none p [] h = refl
  any-none p (x ∷ xs) h = ground (arith, any-none p xs)

  pub any-some : (p : A → Bool) (xs : List A) {a : A} → find_first p xs ≡ some a → any p xs ≡ true
  any-some p [] h = cc
  any-some p (x ∷ xs) {a} h = ground (arith, any-some p xs {a = a})

  pub All-find_first {κ} :
      (P : A → Type κ) (p : A → Bool) (xs : List A) {a : A}
      → All P xs
      → find_first p xs ≡ some a
      → P a
  All-find_first P p [] v h = absurd (cc h)
  All-find_first P p (x ∷ xs) {a} v h = elim (Bool-cases (p x)) [
    | inl hit ↦ subst P (ground arith) v.0
    | inr miss ↦ All-find_first P p xs v.1 (ground arith)
  ]

  pub All-update {κ} :
      (P : A → Type κ) (q : A → Bool) (f : A → A)
      → ((a : A) → q a ≡ true → P a → P (f a))
      → (xs : List A) → All P xs
      → All P (update_where q f xs)
  All-update P q f keep [] v = tt
  All-update P q f keep (x ∷ xs) v = elim (Bool-cases (q x)) [
    | inl hit ↦ (rw hit (keep x hit v.0), All-update P q f keep xs v.1)
    | inr miss ↦ (rw miss v.0, All-update P q f keep xs v.1)
  ]

  pub All-delete {κ} :
      (P : A → Type κ) (q : A → Bool) (xs : List A) → All P xs → All P (delete_where q xs)
  All-delete P q [] v = tt
  All-delete P q (x ∷ xs) v = elim (Bool-cases (q x)) [
    | inl hit ↦ rw hit (All-delete P q xs v.1)
    | inr miss ↦ rw miss (v.0, All-delete P q xs v.1)
  ]

  pub All-select {κ} :
      (P : A → Type κ) (p : A → Bool) (xs : List A) → All P xs → All P (select p xs)
  All-select P p [] v = tt
  All-select P p (x ∷ xs) v = elim (Bool-cases (p x)) [
    | inl hit ↦ rw hit (v.0, All-select P p xs v.1)
    | inr miss ↦ rw miss (All-select P p xs v.1)
  ]

  All-insert_by {κ} :
      (P : A → Type κ) (before : A → A → Bool) (x : A) (ys : List A)
      → P x
      → All P ys
      → All P (insert_by before x ys)
  All-insert_by P before x [] h v = (h, tt)
  All-insert_by P before x (y ∷ ys) h v = elim (Bool-cases (before x y)) [
    | inl sooner ↦ rw sooner (h, v)
    | inr later ↦ rw later (v.0, All-insert_by P before x ys h v.1)
  ]

  pub All-sort_by {κ} :
      (P : A → Type κ) (before : A → A → Bool) (xs : List A) → All P xs → All P (sort_by before xs)
  All-sort_by P before [] v = tt
  All-sort_by P before (x ∷ xs) v =
      All-insert_by P before x (sort_by before xs) v.0 (All-sort_by P before xs v.1)

  pub All-mono {κ μ} :
      (P : A → Type κ) (Q : A → Type μ)
      → ((a : A) → P a → Q a)
      → (xs : List A) → All P xs
      → All Q xs
  All-mono P Q h [] v = tt
  All-mono P Q h (x ∷ xs) v = (h x v.0, All-mono P Q h xs v.1)

-- With distinct keys every row is the one found under its key.
pub fetch_own :
    {A : Type 0} (key : A → ℕ) (rows : List A)
    → Distinct key rows
    → All (λ a. fetch key (key a) rows ≡ some a) rows
fetch_own key [] d = tt
fetch_own key (b ∷ rows) d = (
  rw (==_refl (key b)) refl,
  All-mono _ _ (λ a e. ground (arith, fetch-has key (key a) rows e, ==_iff (key b) (key a))) rows
      (fetch_own key rows d.1),
)
