-- ===== src/Backups/Examples.antt =====
-- Concrete runs of repo/internal/service/backup.go.
use task.Base.{◌≡◌, refl, false, List, [], ◌∷◌, arith, map, length}
use task.Domain.Errors.{ok}
use task.Backups.Table.{Backup, full, incremental, insert}
use task.Backups.Service.{
  World, Row, TableName, users, resources, dump_each, dump_table, take_backup, plan_restore,
}
use task.Backups.Chain.{extended, plan_restore-take_backup}

abbrev rows_at : TableName → List Row
rows_at users =
    record { updated_at = 3; json = "{\"id\":1}" }
    ∷ record { updated_at = 7; json = "{\"id\":2}" }
    ∷ []
rows_at resources = record { updated_at = 2; json = "{\"id\":3}" } ∷ []
rows_at _ = []

abbrev seen : World
seen = record {
  rows_of = rows_at;
  table_down = λ t. false;
  mkdir = ok tt;
  now = 9;
  new_id = 2;
  encode = λ kind taken_at since dump. ok (map (λ entry. length (entry.1)) dump);
  name_of = λ kind taken_at. "backup.json";
  write_file = λ path body. ok tt;
  show_tables = λ n. "tables=20";
  insert_down = false;
}

abbrev first_full : Backup
first_full = record {
  id = 1;
  kind = full;
  path = "full.json";
  size_bytes = 20;
  taken_at = 5;
  detail = "tables=20";
}

-- The rows that are dumped: one of the two users, and the resource, whose table has no such column.
abbrev second : Backup
second = record {
  id = 2;
  kind = incremental;
  path = "backup.json";
  size_bytes = 20;
  taken_at = 9;
  detail = "tables=20";
}

plan_restore-take_backup_example :
    plan_restore false false (first_full ∷ second ∷ [])
    ≡ extended incremental second (plan_restore false false (first_full ∷ []))
unfolding take_backup insert dump_each dump_table
plan_restore-take_backup_example =
    plan_restore-take_backup seen incremental 5 second (first_full ∷ []) (first_full ∷ second ∷ [])
      (omega arith, tt) refl
