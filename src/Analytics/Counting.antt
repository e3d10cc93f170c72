-- ===== src/Analytics/Counting.antt =====
-- What the hourly table of repo/internal/repository/analytics.go counts.
use task.Base.{
  ℕ, ◌+◌, ◌-◌, ◌*◌, ◌≡◌, refl, Bool, true, false, ◌&&◌, Option, none, some, List, [], ◌∷◌, map,
  arith, select, length, sum_of, ltb, str_eq_iff, if◌then◌else◌, ap, ◌∙◌, run,
}
use task.Domain.Models.{hour}
use task.Analytics.Grouping.{sum_of-absorb, sum_of-group}
use task.Analytics.Table.{
  AnalyticsEventType, view, favorite, comment, download, event_eq, AnalyticsEvent, AnalyticsHourly,
  Db, same_bucket, add_count, upsert_hourly, hour_of, recent_hours, upsert_each, aggregate_recent,
}
use task.Analytics.Service.{run_aggregation, aggregated}

-- What the row of a bucket counts; the bucket is given by a row with any count.
abbrev pub counted : AnalyticsHourly → AnalyticsHourly → ℕ
counted bucket h = if same_bucket h bucket then h.count else 0

abbrev pub count_of : AnalyticsHourly → Db → ℕ
count_of bucket db = sum_of (counted bucket) db.hourly

-- The recent events that fall into the bucket.
abbrev pub recent_in : AnalyticsHourly → (since : ℕ) → Db → ℕ
recent_in bucket since db =
    length (select (λ e. ltb since e.created_at && same_bucket (hour_of e) bucket) db.events)

event_eq_sound : (a b : AnalyticsEventType) → event_eq a b ≡ true → a ≡ b
event_eq_sound view view h = refl
event_eq_sound favorite favorite h = refl
event_eq_sound comment comment h = refl
event_eq_sound download download h = refl
event_eq_sound view favorite h = cc
event_eq_sound view comment h = cc
event_eq_sound view download h = cc
event_eq_sound favorite view h = cc
event_eq_sound favorite comment h = cc
event_eq_sound favorite download h = cc
event_eq_sound comment view h = cc
event_eq_sound comment favorite h = cc
event_eq_sound comment download h = cc
event_eq_sound download view h = cc
event_eq_sound download favorite h = cc
event_eq_sound download comment h = cc

counted-add :
    (bucket y x : AnalyticsHourly)
    → same_bucket y x ≡ true
    → counted bucket (add_count y x) ≡ counted bucket y + counted bucket x
unfolding same_bucket
counted-add bucket y x h = ground (
  arith,
  str_eq_iff y.target_type x.target_type,
  str_eq_iff y.target_type bucket.target_type,
  str_eq_iff x.target_type bucket.target_type,
  event_eq_sound y.event_type x.event_type,
)

count_of-upsert_hourly :
    (bucket h : AnalyticsHourly) (db : Db)
    → count_of bucket (upsert_hourly h db) ≡ count_of bucket db + counted bucket h
unfolding upsert_hourly
count_of-upsert_hourly bucket h db =
    omega
      (arith, sum_of-absorb same_bucket add_count (counted bucket) (counted-add bucket) h db.hourly)

-- The events that a test selects, as hours with the count 1.
sum_of-hours :
    (bucket : AnalyticsHourly) (p : AnalyticsEvent → Bool) (events : List AnalyticsEvent)
    → sum_of (counted bucket) (map hour_of (select p events))
      ≡ length (select (λ e. p e && same_bucket (hour_of e) bucket) events)
sum_of-hours bucket p [] = refl
sum_of-hours bucket p (e ∷ events) = ground (arith, sum_of-hours bucket p events)

sum_of-recent_hours :
    (bucket : AnalyticsHourly) (since : ℕ) (db : Db)
    → sum_of (counted bucket) (recent_hours since db) ≡ recent_in bucket since db
unfolding recent_hours
sum_of-recent_hours bucket since db =
    sum_of-group same_bucket add_count (counted bucket) (counted-add bucket) _
    ∙ sum_of-hours bucket (λ e. ltb since e.created_at) db.events

-- Every upsert succeeds.
abbrev pub up : AnalyticsHourly → Bool
up h = false

upsert_each-counts :
    (bucket : AnalyticsHourly) (total : ℕ) (hours : List AnalyticsHourly) (db : Db)
    → count_of bucket (upsert_each up total hours db).1
      ≡ count_of bucket db + sum_of (counted bucket) hours
unfolding upsert_each
upsert_each-counts bucket total [] db = omega arith
upsert_each-counts bucket total (h ∷ hours) db = omega (
  arith,
  upsert_each-counts bucket (total + h.count) hours (upsert_hourly h db),
  count_of-upsert_hourly bucket h db,
)

upsert_each-events :
    (total : ℕ) (hours : List AnalyticsHourly) (db : Db)
    → (upsert_each up total hours db).1.events ≡ db.events
unfolding upsert_each upsert_hourly
upsert_each-events total [] db = refl
upsert_each-events total (h ∷ hours) db =
    upsert_each-events (total + h.count) hours (upsert_hourly h db)

aggregated-db : (r : Option ℕ × Db) → (aggregated r).1 ≡ r.1
aggregated-db (none, db) = refl
aggregated-db (some n, db) = refl

-- The database after a run of the job at a time, in which no query fails.
abbrev pub after_run : Db → ℕ → Db
after_run db now = (run_aggregation false up now db).1

after_run-counts :
    (bucket : AnalyticsHourly) (db : Db) (now : ℕ)
    → count_of bucket (after_run db now) ≡ count_of bucket db + recent_in bucket (now - 2 * hour) db
unfolding run_aggregation aggregate_recent
after_run-counts bucket db now =
    let hours = recent_hours (now - 2 * hour) db in
    ap (count_of bucket) (aggregated-db (upsert_each up 0 hours db))
    ∙ (upsert_each-counts bucket 0 hours db
        ∙ ap (λ n. count_of bucket db + n) (sum_of-recent_hours bucket (now - 2 * hour) db))

after_run-events : (db : Db) (now : ℕ) → (after_run db now).events ≡ db.events
unfolding run_aggregation aggregate_recent
after_run-events db now =
    ap (λ (d : Db). d.events)
      (aggregated-db (upsert_each up 0 (recent_hours (now - 2 * hour) db) db))
    ∙ upsert_each-events 0 (recent_hours (now - 2 * hour) db) db

-- The sum, over the runs, of the events of a bucket that the window of the run covers.
abbrev pub covered : AnalyticsHourly → List ℕ → Db → ℕ
covered bucket [] db = 0
covered bucket (now ∷ times) db = recent_in bucket (now - 2 * hour) db + covered bucket times db

recent_in_same :
    (bucket : AnalyticsHourly) (since : ℕ) (db db' : Db)
    → db'.events ≡ db.events
    → recent_in bucket since db' ≡ recent_in bucket since db
recent_in_same bucket since db db' same =
    ap
      (λ (events : List AnalyticsEvent).
        length (select (λ e. ltb since e.created_at && same_bucket (hour_of e) bucket) events))
      same

covered_same :
    (bucket : AnalyticsHourly) (times : List ℕ) (db db' : Db)
    → db'.events ≡ db.events
    → covered bucket times db' ≡ covered bucket times db
covered_same bucket [] db db' same = refl
covered_same bucket (now ∷ times) db db' same = omega (
  arith,
  recent_in_same bucket (now - 2 * hour) db db' same,
  covered_same bucket times db db' same,
)

-- After runs of the aggregation job in which no query fails and between which no event is recorded,
-- the hourly table counts, in every bucket, what it counted before and for every run each event of
-- the bucket that was recorded in the two hours before the run: an event is counted as often as the
-- job runs within two hours of it.
pub runs_count :
    (bucket : AnalyticsHourly) (times : List ℕ) (db : Db)
    → count_of bucket (run after_run db times) ≡ count_of bucket db + covered bucket times db
runs_count bucket [] db = omega arith
runs_count bucket (now ∷ times) db = omega (
  arith,
  runs_count bucket times (after_run db now),
  after_run-counts bucket db now,
  covered_same bucket times db (after_run db now) (after_run-events db now),
)
