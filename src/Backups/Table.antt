-- ===== src/Backups/Table.antt =====
-- The SQL of repo/internal/repository/backup.go. The kind of a backup is full or incremental; the
-- column has a CHECK for them, and a limit that is at most 0 is 0.
use task.Base.{
  ℕ, Bool, true, false, not, ◌&&◌, ◌||◌, List, [], ◌∷◌, ◌++◌, String, any, select, sort_by, take,
  leb, ltb, ◌==◌, if◌then◌else◌,
}
use task.Domain.Errors.{Result, ok, err, database, not_found}
use task.Domain.Models.{nil_id}

pub data Kind : Type 0 where
  full incremental : Kind

abbrev pub is_full : Kind → Bool
is_full full = true
is_full incremental = false

pub record Backup : Type 0 where
  pub id : ℕ
  pub kind : Kind
  pub path : String
  pub size_bytes : ℕ
  pub taken_at : ℕ
  pub detail : String

-- The time of a new backup is set by its caller, and then kept.
unfoldable pub insert : (new_id now : ℕ) → Backup → List Backup → Result (Backup × List Backup)
insert new_id now b rows =
    let row : Backup = record b {
      id = if b.id == nil_id then new_id else b.id;
      taken_at = if b.taken_at == 0 then now else b.taken_at;
    } in
    if any (λ (c : Backup). c.id == row.id) rows then err database else ok (row, rows ++ row ∷ [])

abbrev pub latest_first : List Backup → List Backup
latest_first rows = sort_by (λ (a b : Backup). leb b.taken_at a.taken_at) rows

unfoldable pub list_backups : (limit : ℕ) → List Backup → List Backup
list_backups limit rows =
    let n = if limit == 0 || ltb 200 limit then 50 else limit in take n (latest_first rows)

-- LIMIT 1, and no row is an error.
abbrev pub first_row : List Backup → Result Backup
first_row [] = err not_found
first_row (b ∷ rows) = ok b

unfoldable pub last_successful : List Backup → Result Backup
last_successful rows = first_row (latest_first rows)

unfoldable pub last_full : List Backup → Result Backup
last_full rows = first_row (latest_first (select (λ (b : Backup). is_full b.kind) rows))

abbrev pub is_incremental_after : (after : ℕ) → Backup → Bool
is_incremental_after after b = not (is_full b.kind) && ltb after b.taken_at

unfoldable pub incrementals_after : (after : ℕ) → List Backup → List Backup
incrementals_after after rows =
    sort_by (λ (a b : Backup). leb a.taken_at b.taken_at) (select (is_incremental_after after) rows)
