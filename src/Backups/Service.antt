-- ===== src/Backups/Service.antt =====
-- repo/internal/service/backup.go. The rows of a table are texts in JSON with the time of their last
-- change; the file system, the encoding of the file and the names of files are given.
use task.Base.{
  ℕ, Bool, true, false, not, ◌&&◌, List, [], ◌∷◌, String, select, length, ltb, ◌==◌, if◌then◌else◌,
}
use task.Domain.Errors.{Result, ok, err, internal, query, ◌>>=◌, ◌>>◌}
use task.Backups.Table.{
  Kind, full, incremental, Backup, insert, last_successful, last_full, incrementals_after,
}

pub data TableName : Type 0 where
  resources group_reservations users bookings group_buys group_buy_participants : TableName
  documents document_revisions notifications todos notification_deliveries : TableName
  data_dictionary tags taggings consent_records webhooks webhook_deliveries : TableName
  analytics_events analytics_hourly anomaly_alerts : TableName

abbrev pub backup_tables : List TableName
backup_tables =
    resources ∷ group_reservations ∷ users ∷ bookings ∷ group_buys ∷ group_buy_participants
    ∷ documents ∷ document_revisions ∷ notifications ∷ todos ∷ notification_deliveries
    ∷ data_dictionary ∷ tags ∷ taggings ∷ consent_records ∷ webhooks ∷ webhook_deliveries
    ∷ analytics_events ∷ analytics_hourly ∷ anomaly_alerts ∷ []

abbrev pub table_has_updated_at : TableName → Bool
table_has_updated_at users = true
table_has_updated_at bookings = true
table_has_updated_at group_reservations = true
table_has_updated_at group_buys = true
table_has_updated_at documents = true
table_has_updated_at todos = true
table_has_updated_at _ = false

pub record Row : Type 0 where
  pub updated_at : ℕ
  pub json : String

-- `since` is 0 where the source has the zero time.
abbrev pub is_dumped : TableName → (since : ℕ) → Row → Bool
is_dumped t since r =
    if not (since == 0) && table_has_updated_at t then ltb since r.updated_at else true

abbrev pub Dump : Type 0
Dump = List (TableName × List Row)

-- What a backup meets: the live tables, the queries of them that fail, the clock and the files.
pub record World : Type 0 where
  pub rows_of : TableName → List Row
  pub table_down : TableName → Bool
  pub mkdir : Result (Unit {0})
  pub now : ℕ
  pub new_id : ℕ
  pub encode : Kind → (taken_at since : ℕ) → Dump → Result (List ℕ)
  pub name_of : Kind → (taken_at : ℕ) → String
  pub write_file : (path : String) → List ℕ → Result (Unit {0})
  pub show_tables : ℕ → String
  pub insert_down : Bool

unfoldable pub dump_table : World → TableName → (since : ℕ) → Result (List Row)
dump_table w t since = query (w.table_down t) (select (is_dumped t since) (w.rows_of t))

abbrev pub kept_dump : TableName → Result (List Row) → Dump → Dump
kept_dump t (ok rows) rest = (t, rows) ∷ rest
kept_dump t (err e) rest = rest

-- A table whose query fails is logged and left out.
unfoldable pub dump_each : World → (since : ℕ) → List TableName → Dump
dump_each w since [] = []
dump_each w since (t ∷ ts) = kept_dump t (dump_table w t since) (dump_each w since ts)

abbrev pub backup_row : World → Kind → Dump → (body : List ℕ) → Backup
backup_row w kind dump body = record {
  id = 0;
  kind = kind;
  path = w.name_of kind w.now;
  size_bytes = length body;
  taken_at = w.now;
  detail = w.show_tables (length dump);
}

unfoldable pub take_backup :
    World → Kind → (since : ℕ) → List Backup → Result (Backup × List Backup)
take_backup w kind since index = do
  w.mkdir
  let dump = dump_each w since backup_tables
  body ← w.encode kind w.now since dump
  w.write_file (w.name_of kind w.now) body
  query w.insert_down tt
  insert w.new_id w.now (backup_row w kind dump body) index

unfoldable pub take_full : World → List Backup → Result (Backup × List Backup)
take_full w index = take_backup w full 0 index

abbrev pub baseline : Result Backup → ℕ
baseline (ok last) = last.taken_at
baseline (err e) = 0

unfoldable pub take_incremental :
    (last_down : Bool) → World → List Backup → Result (Backup × List Backup)
take_incremental last_down w index =
    take_backup w incremental (baseline (query last_down tt >> last_successful index)) index

abbrev pub no_full : Result Backup → Result Backup
no_full (err e) = err internal
no_full (ok f) = ok f

unfoldable pub plan_restore :
    (full_down incrementals_down : Bool) → List Backup → Result (List Backup)
plan_restore full_down incrementals_down index = do
  f ← no_full (query full_down tt >> last_full index)
  incrementals ← query incrementals_down (incrementals_after f.taken_at index)
  ok (f ∷ incrementals)
