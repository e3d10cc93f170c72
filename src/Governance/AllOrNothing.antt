-- ===== src/Governance/AllOrNothing.antt =====
-- The contract of ImportResourcesCSV of repo/internal/service/governance.go: all rows or none.
use task.Base.{
  ℕ, suc, ◌+◌, ◌<◌, ◌≡◌, refl, inl, inr, ◌⊎◌, Option, none, some, List, [], ◌∷◌, String, any,
  length, length-append, All, All-append, arith, ltb, str_eq, Bool-cases,
}
use task.Base.Int.{ℤ, pos, leb_ℤ}
use task.Governance.Csv.{
  Text, CsvValidationError, ParsedResourceRow, Columns, Scan, reject, finish_row, check_capacity,
  check_row, check_rows, check_dates, date_columns, cell_of, column,
}

-- Either there are more complaints than before, or as many and so many more parsed rows.
abbrev pub Adds : ℕ → Scan → Scan → Type 0
Adds k s s' =
    (length s.errs < length s'.errs)
    ⊎ ((length s'.errs ≡ length s.errs) × (length s'.parsed ≡ length s.parsed + k))

reject-Adds : (n : ℕ) (col reason : String) (s : Scan) → Adds 1 s (reject n col reason s)
reject-Adds n col reason s = inl (
    omega
      (arith, length-append s.errs (record { row = n; field_name = col; reason = reason } ∷ [])))

finish_row-Adds :
    (dates : List CsvValidationError) (r : ParsedResourceRow) (s : Scan)
    → Adds 1 s (finish_row dates r s)
finish_row-Adds [] r s = inr (refl, omega (arith, length-append s.parsed (r ∷ [])))
finish_row-Adds (e ∷ errs) r s = inl (omega (arith, length-append s.errs (e ∷ errs)))

check_capacity-Adds :
    (n : ℕ) (dates : List CsvValidationError) (name desc : String) (c : Option ℤ) (s : Scan)
    → Adds 1 s (check_capacity n dates name desc c s)
check_capacity-Adds n dates name desc none s =
    reject-Adds n "capacity" "must be a positive integer" s
check_capacity-Adds n dates name desc (some c) s = elim (Bool-cases (leb_ℤ c (pos 0))) [
  | inl bad ↦ rw bad (reject-Adds n "capacity" "must be a positive integer" s)
  | inr good ↦ rw good (finish_row-Adds dates _ s)
]

Adds-step : (k : ℕ) (s t u : Scan) → Adds 1 s t → Adds k t u → Adds (suc k) s u
Adds-step k s t u (inl a) (inl b) = inl (omega arith)
Adds-step k s t u (inl a) (inr b) = inl (omega arith)
Adds-step k s t u (inr a) (inl b) = inl (omega arith)
Adds-step k s t u (inr a) (inr b) = inr (omega arith, omega arith)

abbrev pub Positive : ParsedResourceRow → Type 0
Positive p = 0 < p.capacity

check_capacity-Positive :
    (n : ℕ) (dates : List CsvValidationError) (name desc : String) (c : Option ℤ) (s : Scan)
    → All Positive s.parsed
    → All Positive (check_capacity n dates name desc c s).parsed
check_capacity-Positive n dates name desc none s h = h
check_capacity-Positive n [] name desc (some c) s h = elim (Bool-cases (leb_ℤ c (pos 0))) [
  | inl bad ↦ rw bad h
  | inr good ↦ rw good (All-append Positive s.parsed _ (ground arith, tt) h)
]
check_capacity-Positive n (e ∷ dates) name desc (some c) s h = elim (Bool-cases (leb_ℤ c (pos 0))) [
  | inl bad ↦ rw bad h
  | inr good ↦ rw good h
]

-- A property of the scan that every outcome of a row has.
module _ {κ} (P : Scan → Type κ) (t : Text) (width : ℕ) (cols : Columns) (n : ℕ) (row : List String)
    (s : Scan) (rejected : (col reason : String) → P (reject n col reason s))
    (checked : (seen : List String) (dates : List CsvValidationError) (name desc : String)
        (c : Option ℤ)
      → P (check_capacity n dates name desc c (record s { seen = seen }))) where
  check_row-cases : P (check_row t width cols n row s)
  unfolding check_row
  check_row-cases = elim (Bool-cases (ltb (length row) width)) [
    | inl short ↦ rw short (rejected "*" "short row")
    | inr long ↦ elim (Bool-cases (str_eq (t.trim_space (cell_of (column "name" cols) row)) "")) [
      | inl nameless ↦ rw (long, nameless) (rejected "name" "required")
      | inr named ↦
          elim (Bool-cases (
            any (λ k. str_eq k (t.lower (t.trim_space (cell_of (column "name" cols) row))))
              s.seen)) [
                | inl twice ↦ rw (long, named, twice) (rejected "name" "duplicate within file")
                | inr once ↦
                    rw (long, named, once)
                      (checked (t.lower (t.trim_space (cell_of (column "name" cols) row)) ∷ s.seen)
                        (check_dates t n (date_columns t cols) row)
                        (t.trim_space (cell_of (column "name" cols) row))
                        (t.trim_space (cell_of (column "description" cols) row))
                        (t.atoi (t.trim_space (cell_of (column "capacity" cols) row))))
              ]
    ]
  ]

pub check_rows-Adds :
    (t : Text) (width : ℕ) (cols : Columns) (n : ℕ) (rows : List (List String)) (s : Scan)
    → Adds (length rows) s (check_rows t width cols n rows s)
unfolding check_rows
check_rows-Adds t width cols n [] s = inr (refl, omega arith)
check_rows-Adds t width cols n (row ∷ rows) s =
    Adds-step (length rows) s (check_row t width cols n row s)
      (check_rows t width cols (suc n) rows (check_row t width cols n row s))
      (check_row-cases (Adds 1 s) t width cols n row s (λ col reason. reject-Adds n col reason s)
        (λ seen dates name desc c.
          check_capacity-Adds n dates name desc c (record s { seen = seen })))
      (check_rows-Adds t width cols (suc n) rows (check_row t width cols n row s))

pub check_rows-Positive :
    (t : Text) (width : ℕ) (cols : Columns) (n : ℕ) (rows : List (List String)) (s : Scan)
    → All Positive s.parsed
    → All Positive (check_rows t width cols n rows s).parsed
unfolding check_rows
check_rows-Positive t width cols n [] s h = h
check_rows-Positive t width cols n (row ∷ rows) s h =
    check_rows-Positive t width cols (suc n) rows _ (
      check_row-cases (λ s'. All Positive s'.parsed) t width cols n row s (λ col reason. h)
        (λ seen dates name desc c.
          check_capacity-Positive n dates name desc c (record s { seen = seen }) h))
