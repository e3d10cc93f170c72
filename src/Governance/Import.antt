-- ===== src/Governance/Import.antt =====
-- ImportResourcesCSV of repo/internal/service/governance.go and InsertManyTx of
-- repo/internal/repository/resource.go.
use task.Base.{
  ℕ, Bool, false, ◌||◌, Option, none, some, List, [], ◌∷◌, ◌++◌, any, length, ◌==◌, str_eq,
  if◌then◌else◌,
}
use task.Domain.Errors.{Result, ok, err, database, ◌>>=◌}
use task.Domain.Models.{Resource}
use task.Governance.Csv.{
  Text, CsvValidationError, ParsedResourceRow, Validation, fatal, invalid, valid,
  validate_resources_csv,
}

-- What the insertion of a row meets: the identifier that it draws, and a fault.
pub record Insertion : Type 0 where
  pub new_id : ℕ
  pub down : Bool

-- One INSERT: the primary key, UNIQUE (name) and CHECK (capacity > 0).
abbrev pub insert_resource :
    Insertion → (now : ℕ) → ParsedResourceRow → List Resource → Result (List Resource)
insert_resource i now p table =
    let row : Resource = record {
      id = i.new_id;
      name = p.name;
      description = p.description;
      capacity = p.capacity;
      created_at = now;
    } in
    if i.down
      || any (λ (r : Resource). r.id == i.new_id || str_eq r.name p.name) table
      || p.capacity == 0
    then err database
    else ok (table ++ row ∷ [])

-- The loop of `InsertManyTx` inside its transaction.
unfoldable pub insert_each :
    (ParsedResourceRow → Insertion)
    → (now : ℕ) → List ParsedResourceRow
    → List Resource
    → Result (List Resource)
insert_each meet now [] table = ok table
insert_each meet now (p ∷ rows) table =
    insert_resource (meet p) now p table >>= insert_each meet now rows

-- The table after the transaction, which is undone by any error, also of Begin or Commit.
abbrev pub committed :
    (down : Bool)
    → List ParsedResourceRow
    → List Resource
    → Result (List Resource)
    → Option ℕ × List Resource
committed false rows table (ok table') = (some (length rows), table')
committed _ rows table _ = (none, table)

unfoldable pub insert_many_tx :
    (down : Bool)
    → (ParsedResourceRow → Insertion)
    → (now : ℕ) → List ParsedResourceRow
    → List Resource
    → Option ℕ × List Resource
insert_many_tx down meet now [] table = (some 0, table)
insert_many_tx down meet now (p ∷ rows) table =
    committed down (p ∷ rows) table (insert_each meet now (p ∷ rows) table)

-- The results of `ImportResourcesCSV`.
pub data Import : Type 0 where
  failed : Import
  refused : List CsvValidationError → Import
  imported : ℕ → Import

abbrev pub import_result : Option ℕ × List Resource → Import × List Resource
import_result (none, table) = (failed, table)
import_result (some n, table) = (imported n, table)

abbrev pub import_valid :
    (down : Bool)
    → (ParsedResourceRow → Insertion)
    → (now : ℕ) → List Resource
    → Validation
    → Import × List Resource
import_valid down meet now table fatal = (failed, table)
import_valid down meet now table (invalid errs) = (refused errs, table)
import_valid down meet now table (valid parsed) =
    import_result (insert_many_tx down meet now parsed table)

unfoldable pub import_resources_csv :
    Text
    → (down : Bool) → (ParsedResourceRow → Insertion)
    → (now : ℕ) → List ℕ
    → List Resource
    → Import × List Resource
import_resources_csv t down meet now body table =
    import_valid down meet now table (validate_resources_csv t body)
