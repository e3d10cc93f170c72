-- ===== src/Governance/Importing.antt =====
-- ImportResourcesCSV of repo/internal/service/governance.go imports all rows of a file or none.
use task.Base.{
  ℕ, ◌+◌, ◌<◌, ◌≡◌, refl, inl, inr, ◌⊎◌, Bool, true, false, Option, none, some, List, [], ◌∷◌, ◌++◌,
  String, length, All, arith, Bool-cases, ap, sym, ◌∙◌,
}
use mathlib.Core.List.{append_assoc, append-nil}
use task.Domain.Errors.{Result, ok, err, Result-cases}
use task.Domain.Models.{Resource}
use task.Governance.Csv.{
  Text, CsvValidationError, ParsedResourceRow, fresh_scan, conclude, Validation, fatal, invalid,
  valid, validate_table, validate_resources_csv, has_required, has_mandatory_date, index_columns,
}
use task.Governance.Import.{
  Insertion, insert_resource, insert_each, committed, insert_many_tx, Import, failed, refused,
  imported, import_result, import_valid, import_resources_csv,
}
use task.Governance.AllOrNothing.{Positive, check_rows-Adds, check_rows-Positive}

-- The rows of a file behind its header.
abbrev pub data_rows : Option (List (List String)) → List (List String)
data_rows none = []
data_rows (some []) = []
data_rows (some (header ∷ rows)) = rows

-- What a validation says of the rows of the file.
abbrev Judged : List (List String) → Validation → Type 0
Judged rows fatal = Unit
Judged rows (invalid errs) = 0 < length errs
Judged rows (valid parsed) = (length parsed ≡ length rows) × All Positive parsed

conclude-Judged :
    (rows : List (List String)) (errs : List CsvValidationError) (parsed : List ParsedResourceRow)
    → (0 < length errs) ⊎ ((length errs ≡ 0) × (length parsed ≡ 0 + length rows))
    → All Positive parsed
    → Judged rows (conclude errs parsed)
conclude-Judged rows [] parsed (inl h) positive = absurd (omega arith)
conclude-Judged rows [] parsed (inr h) positive = (omega arith, positive)
conclude-Judged rows (e ∷ errs) parsed h positive = omega arith

validate_table-Judged :
    (t : Text) (table : Option (List (List String)))
    → Judged (data_rows table) (validate_table t table)
validate_table-Judged t none = tt
validate_table-Judged t (some []) = tt
validate_table-Judged t (some (header ∷ rows)) =
    let cols = index_columns t 0 header [] in
    elim (Bool-cases (has_required cols)) [
      | inr lacking ↦ rw lacking tt
      | inl complete ↦ elim (Bool-cases (has_mandatory_date cols)) [
        | inr undated ↦ rw (complete, undated) tt
        | inl dated ↦
            rw (complete, dated)
              (conclude-Judged rows _ _ (check_rows-Adds t (length header) cols 2 rows fresh_scan)
                (check_rows-Positive t (length header) cols 2 rows fresh_scan tt))
      ]
    ]

-- What an import does to the table, by its answer: nothing, unless it answers a number; then so many
-- resources are added, one for each row of the file, and each has a capacity above 0.
abbrev pub Imported : List (List String) → List Resource → Import × List Resource → Type 0
Imported rows table (failed, table') = table' ≡ table
Imported rows table (refused errs, table') = (table' ≡ table) × (0 < length errs)
Imported rows table (imported n, table') =
    (added : List Resource) × (table' ≡ table ++ added)
    × (length added ≡ n)
    × (n ≡ length rows)
    × All (λ r. 0 < r.capacity) added

insert_resource-adds :
    (i : Insertion) (now : ℕ) (p : ParsedResourceRow) (table : List Resource)
    {table' : List Resource}
    → insert_resource i now p table ≡ ok table'
    → (row : Resource) × (table' ≡ table ++ row ∷ []) × (row.capacity ≡ p.capacity)
insert_resource-adds i now p table {table'} h =
    let row : Resource = record {
      id = i.new_id;
      name = p.name;
      description = p.description;
      capacity = p.capacity;
      created_at = now;
    } in
    (row, ground arith, refl)

-- The resources that a list of rows adds.
abbrev Adding : List ParsedResourceRow → List Resource → List Resource → Type 0
Adding parsed table table' =
    (added : List Resource) × (table' ≡ table ++ added)
    × (length added ≡ length parsed)
    × All (λ r. 0 < r.capacity) added

Adding-cons :
    (p : ParsedResourceRow) (parsed : List ParsedResourceRow) (table middle table' : List Resource)
    → Positive p
    → ((row : Resource) × (middle ≡ table ++ row ∷ []) × (row.capacity ≡ p.capacity))
    → Adding parsed middle table'
    → Adding (p ∷ parsed) table table'
Adding-cons p parsed table middle table' positive (row, e, c) (added, f, n, all) = (
  row ∷ added,
  f ∙ (ap (λ xs. xs ++ added) e ∙ append_assoc table (row ∷ []) added),
  omega arith,
  (omega arith, all),
)

insert_each-Adding :
    (meet : ParsedResourceRow → Insertion) (now : ℕ) (parsed : List ParsedResourceRow)
    (table : List Resource) {table' : List Resource}
    → All Positive parsed
    → insert_each meet now parsed table ≡ ok table'
    → Adding parsed table table'
unfolding insert_each
insert_each-Adding meet now [] table {table'} positive h =
    let same : table ≡ table' = cc h in ([], sym same ∙ sym (append-nil table), refl, tt)
insert_each-Adding meet now (p ∷ parsed) table {table'} positive h =
    elim (Result-cases (insert_resource (meet p) now p table)) [
      | inl (middle, e) ↦
          Adding-cons p parsed table middle table' positive.0
            (insert_resource-adds (meet p) now p table e)
            (insert_each-Adding meet now parsed middle positive.1 (rw e at h))
      | inr (x, e) ↦ absurd (cc (rw e at h))
    ]

committed-Imported :
    (down : Bool) (rows : List (List String)) (parsed : List ParsedResourceRow)
    (table : List Resource) (o : Result (List Resource))
    → length parsed ≡ length rows
    → ((table' : List Resource) → o ≡ ok table' → Adding parsed table table')
    → Imported rows table (import_result (committed down parsed table o))
committed-Imported true rows parsed table (ok t) n adds = refl
committed-Imported true rows parsed table (err e) n adds = refl
committed-Imported false rows parsed table (err e) n adds = refl
committed-Imported false rows parsed table (ok t) n adds =
    let (added, f, same, all) = adds t refl in (added, f, same, n, all)

import_valid-Imported :
    (down : Bool) (meet : ParsedResourceRow → Insertion) (now : ℕ) (table : List Resource)
    (rows : List (List String)) (v : Validation)
    → Judged rows v
    → Imported rows table (import_valid down meet now table v)
unfolding insert_many_tx
import_valid-Imported down meet now table rows fatal j = refl
import_valid-Imported down meet now table rows (invalid errs) j = (refl, j)
import_valid-Imported down meet now table rows (valid []) j =
    ([], sym (append-nil table), refl, j.0, tt)
import_valid-Imported down meet now table rows (valid (p ∷ parsed)) j =
    committed-Imported down rows (p ∷ parsed) table _ j.0
      (λ table' e. insert_each-Adding meet now (p ∷ parsed) table j.1 e)

-- An import of resources from a file leaves the table as it is, unless it answers a number. Then it
-- has added so many resources at the end of the table, one for each row of the file behind its header
-- and each with a capacity above 0. An answer with complaints has at least one.
pub import_resources_csv-Imported :
    (t : Text) (down : Bool) (meet : ParsedResourceRow → Insertion) (now : ℕ) (body : List ℕ)
    (table : List Resource)
    → Imported (data_rows (t.read_all body)) table (import_resources_csv t down meet now body table)
unfolding import_resources_csv validate_resources_csv
import_resources_csv-Imported t down meet now body table =
    import_valid-Imported down meet now table (data_rows (t.read_all body)) _
      (validate_table-Judged t (t.read_all body))
