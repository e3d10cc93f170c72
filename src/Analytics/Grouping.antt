-- ===== src/Analytics/Grouping.antt =====
-- GROUP BY and ON CONFLICT DO UPDATE: rows with one key are merged into one.
use task.Base.{
  ℕ, ◌+◌, ◌≡◌, refl, inl, inr, Bool, true, List, [], ◌∷◌, arith, sum_of, if◌then◌else◌, Bool-cases,
}

module _ {A : Type 0} (same : A → A → Bool) (merge : A → A → A) where
  -- The row is merged into the first that has its key, or added.
  abbrev pub absorb : A → List A → List A
  absorb x [] = x ∷ []
  absorb x (y ∷ rows) = if same y x then merge y x ∷ rows else y ∷ absorb x rows

  abbrev pub group : List A → List A
  group [] = []
  group (x ∷ rows) = absorb x (group rows)

  -- A weight that adds up in a merge.
  pub sum_of-absorb :
      (w : A → ℕ)
      → ((y x : A) → same y x ≡ true → w (merge y x) ≡ w y + w x)
      → (x : A) (rows : List A) → sum_of w (absorb x rows) ≡ w x + sum_of w rows
  sum_of-absorb w additive x [] = refl
  sum_of-absorb w additive x (y ∷ rows) = elim (Bool-cases (same y x)) [
    | inl merged ↦ rw merged (omega (arith, additive y x merged))
    | inr apart ↦ rw apart (omega (arith, sum_of-absorb w additive x rows))
  ]

  pub sum_of-group :
      (w : A → ℕ)
      → ((y x : A) → same y x ≡ true → w (merge y x) ≡ w y + w x)
      → (rows : List A) → sum_of w (group rows) ≡ sum_of w rows
  sum_of-group w additive [] = refl
  sum_of-group w additive (x ∷ rows) =
      omega (arith, sum_of-absorb w additive x (group rows), sum_of-group w additive rows)
