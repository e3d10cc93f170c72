-- ===== src/Governance/Csv.antt =====
-- ValidateResourcesCSV of repo/internal/service/governance.go. What the standard library decides about
-- texts is a field of `Text`.
use task.Base.{
  ℕ, zero, suc, Bool, not, ◌&&◌, ◌||◌, Option, none, some, List, [], ◌∷◌, ◌++◌, String, any, length,
  select, ltb, str_eq, if◌then◌else◌,
}
use task.Base.Int.{ℤ, pos, leb_ℤ, pos_part}

-- `read_all` is the CSV reader, `atoi` and `parses` are strconv.Atoi and time.Parse.
pub record Text : Type 0 where
  pub read_all : List ℕ → Option (List (List String))
  pub lower : String → String
  pub trim_space : String → String
  pub has_prefix : String → String → Bool
  pub has_suffix : String → String → Bool
  pub atoi : String → Option ℤ
  pub parses : (layout : String) → String → Bool

pub record CsvValidationError : Type 0 where
  pub row : ℕ
  pub field_name : String
  pub reason : String

pub record ParsedResourceRow : Type 0 where
  pub name : String
  pub description : String
  pub capacity : ℕ

-- A map from a text to a number, as the list of its entries.
abbrev pub Columns : Type 0
Columns = List (String × ℕ)

abbrev pub column : String → Columns → Option ℕ
column k [] = none
column k ((j, i) ∷ cols) = if str_eq j k then some i else column k cols

abbrev pub without : String → Columns → Columns
without k [] = []
without k ((j, i) ∷ cols) = let rest = without k cols in if str_eq j k then rest else (j, i) ∷ rest

abbrev pub has_column : String → Columns → Bool
has_column k cols = any (λ (c : String × ℕ). str_eq c.0 k) cols

-- `row[i]`; the index is below the length of the header, and no row is shorter that is read.
abbrev pub cell : ℕ → List String → String
cell i [] = ""
cell zero (x ∷ row) = x
cell (suc i) (x ∷ row) = cell i row

abbrev pub cell_of : Option ℕ → List String → String
cell_of none row = ""
cell_of (some i) row = cell i row

module _ (t : Text) where
  open t use {lower, trim_space, has_prefix, has_suffix, atoi, parses}

  unfoldable pub is_date_like_column : String → Bool
  is_date_like_column name =
      let n = lower (trim_space name) in
      not (str_eq n "")
      && (str_eq n "date"
          || has_suffix n "_at"
          || has_suffix n "_date"
          || has_suffix n "_time"
          || has_prefix n "date_")

  -- `none` is no complaint; the quoted value is left out of the reason.
  unfoldable pub validate_date_field : String → Option String
  validate_date_field value =
      let v = trim_space value in
      if str_eq v ""
      then some "required (RFC3339 or YYYY-MM-DD)"
      else if parses "2006-01-02T15:04:05.999999999Z07:00" v
          || parses "2006-01-02T15:04:05Z07:00" v
          || parses "2006-01-02" v
      then none
      else some "must be RFC3339 or YYYY-MM-DD"

  -- `colIdx`: a later column of one name replaces an earlier one.
  unfoldable pub index_columns : (i : ℕ) → List String → Columns → Columns
  index_columns i [] cols = cols
  index_columns i (h ∷ header) cols =
      let key = lower (trim_space h) in index_columns (suc i) header ((key, i) ∷ without key cols)

  abbrev pub date_columns : Columns → Columns
  date_columns cols = select (λ (c : String × ℕ). is_date_like_column c.0) cols

  abbrev pub complain : (row : ℕ) → String → Option String → List CsvValidationError
  complain row col none = []
  complain row col (some reason) = record { row = row; field_name = col; reason = reason } ∷ []

  -- The loop over the date columns: the complaints about one row.
  unfoldable pub check_dates : (row : ℕ) → Columns → List String → List CsvValidationError
  check_dates n [] row = []
  check_dates n ((h, i) ∷ dates) row =
      complain n h (validate_date_field (cell i row)) ++ check_dates n dates row

-- What the loop over the rows carries.
pub record Scan : Type 0 where
  pub parsed : List ParsedResourceRow
  pub errs : List CsvValidationError
  pub seen : List String

abbrev pub reject : (row : ℕ) → String → String → Scan → Scan
reject n col reason s = record s {
  errs = s.errs ++ record { row = n; field_name = col; reason = reason } ∷ [];
}

abbrev pub accept : ParsedResourceRow → Scan → Scan
accept r s = record s { parsed = s.parsed ++ r ∷ [] }

-- The end of a row: its dates.
abbrev pub finish_row : List CsvValidationError → ParsedResourceRow → Scan → Scan
finish_row [] r s = accept r s
finish_row (e ∷ errs) r s = record s { errs = s.errs ++ (e ∷ errs) }

-- The capacity as Atoi reads it.
abbrev pub check_capacity :
    (row : ℕ) → List CsvValidationError → String → String → Option ℤ → Scan → Scan
check_capacity n dates name desc none s = reject n "capacity" "must be a positive integer" s
check_capacity n dates name desc (some c) s =
    if leb_ℤ c (pos 0)
    then reject n "capacity" "must be a positive integer" s
    else finish_row dates (record { name = name; description = desc; capacity = pos_part c }) s

module _ (t : Text) where
  open t use {lower, trim_space, atoi, read_all}

  -- One round of the loop; `n` is `i + 1`.
  unfoldable pub check_row : (width : ℕ) → Columns → (n : ℕ) → List String → Scan → Scan
  check_row width cols n row s =
      let name = trim_space (cell_of (column "name" cols) row) in
      let desc = trim_space (cell_of (column "description" cols) row) in
      let cap_str = trim_space (cell_of (column "capacity" cols) row) in
      if ltb (length row) width
      then reject n "*" "short row" s
      else if str_eq name ""
      then reject n "name" "required" s
      else if any (λ k. str_eq k (lower name)) s.seen
      then reject n "name" "duplicate within file" s
      else check_capacity n (check_dates t n (date_columns t cols) row) name desc (atoi cap_str)
          (record s { seen = lower name ∷ s.seen })

  unfoldable pub check_rows : (width : ℕ) → Columns → (n : ℕ) → List (List String) → Scan → Scan
  check_rows width cols n [] s = s
  check_rows width cols n (row ∷ rows) s =
      check_rows width cols (suc n) rows (check_row width cols n row s)

-- The three results of `ValidateResourcesCSV`: a fatal error, complaints, or the parsed rows.
pub data Validation : Type 0 where
  fatal : Validation
  invalid : List CsvValidationError → Validation
  valid : List ParsedResourceRow → Validation

abbrev pub conclude : List CsvValidationError → List ParsedResourceRow → Validation
conclude [] parsed = valid parsed
conclude (e ∷ errs) parsed = invalid (e ∷ errs)

abbrev pub fresh_scan : Scan
fresh_scan = record { parsed = []; errs = []; seen = [] }

abbrev pub has_required : Columns → Bool
has_required cols =
    has_column "name" cols && has_column "description" cols && has_column "capacity" cols

abbrev pub has_mandatory_date : Columns → Bool
has_mandatory_date cols = has_column "effective_date" cols || has_column "created_at" cols

module _ (t : Text) where
  open t use {read_all}

  abbrev pub validate_table : Option (List (List String)) → Validation
  validate_table none = fatal
  validate_table (some []) = fatal
  validate_table (some (header ∷ rows)) =
      let cols = index_columns t 0 header [] in
      if not (has_required cols)
      then fatal
      else if not (has_mandatory_date cols)
      then fatal
      else let s = check_rows t (length header) cols 2 rows fresh_scan in conclude s.errs s.parsed

  unfoldable pub validate_resources_csv : List ℕ → Validation
  validate_resources_csv body = validate_table (read_all body)
