-- ===== src/Analytics/Table.antt =====
-- The SQL of repo/internal/repository/analytics.go and the records of repo/internal/domain/analytics.go.
-- An average is the pair of a sum and the number of its terms.
use task.Base.{
  take, ℕ, ◌+◌, ◌-◌, ◌*◌, ◌/◌, Bool, true, false, ◌&&◌, ◌||◌, Option, none, some, List, [], ◌∷◌,
  ◌++◌, String, map, select, update_where, sort_by, length, sum_of, leb, ltb, ◌==◌, str_eq,
  if◌then◌else◌,
}
use task.Domain.Models.{hour, day, nil_id}
use task.Analytics.Grouping.{absorb, group}

pub data AnalyticsEventType : Type 0 where
  view favorite comment download : AnalyticsEventType

abbrev pub event_eq : AnalyticsEventType → AnalyticsEventType → Bool
event_eq view view = true
event_eq favorite favorite = true
event_eq comment comment = true
event_eq download download = true
event_eq _ _ = false

pub record AnalyticsEvent : Type 0 where
  pub id : ℕ
  pub event_type : AnalyticsEventType
  pub target_type : String
  pub target_id : ℕ
  pub user_anon : Option String
  pub created_at : ℕ

pub record AnalyticsHourly : Type 0 where
  pub bucket_start : ℕ
  pub event_type : AnalyticsEventType
  pub target_type : String
  pub target_id : ℕ
  pub count : ℕ

pub record AnomalyAlert : Type 0 where
  pub id : ℕ
  pub detected_at : ℕ
  pub event_type : AnalyticsEventType
  pub observed : ℕ
  pub baseline : ℕ × ℕ

pub record TopSession : Type 0 where
  pub target_type : String
  pub target_id : ℕ
  pub score : ℕ

pub record TrendBucket : Type 0 where
  pub bucket_start : ℕ
  pub count : ℕ

pub record Db : Type 0 where
  pub events : List AnalyticsEvent
  pub hourly : List AnalyticsHourly
  pub alerts : List AnomalyAlert

-- `date_trunc('hour', t)` and `date_trunc('day', t)`
abbrev pub trunc : (unit t : ℕ) → ℕ
trunc unit t = t / unit * unit

-- The id is BIGSERIAL; a creation time of 0 is no time.
unfoldable pub record_event : (new_id now : ℕ) → AnalyticsEvent → Db → AnalyticsEvent × Db
record_event new_id now e db =
    let row : AnalyticsEvent = record e {
      id = new_id;
      created_at = if e.created_at == 0 then now else e.created_at;
    } in
    (row, record db { events = db.events ++ row ∷ [] })

-- The primary key of analytics_hourly.
unfoldable pub same_bucket : AnalyticsHourly → AnalyticsHourly → Bool
same_bucket a b =
    a.bucket_start == b.bucket_start
    && event_eq a.event_type b.event_type
    && str_eq a.target_type b.target_type
    && a.target_id == b.target_id

abbrev pub add_count : AnalyticsHourly → AnalyticsHourly → AnalyticsHourly
add_count a b = record a { count = a.count + b.count }

unfoldable pub upsert_hourly : AnalyticsHourly → Db → Db
upsert_hourly h db = record db { hourly = absorb same_bucket add_count h db.hourly }

abbrev pub hour_of : AnalyticsEvent → AnalyticsHourly
hour_of e = record {
  bucket_start = trunc hour e.created_at;
  event_type = e.event_type;
  target_type = e.target_type;
  target_id = e.target_id;
  count = 1;
}

-- The rows of the SELECT of `AggregateRecent`.
unfoldable pub recent_hours : (since : ℕ) → Db → List AnalyticsHourly
recent_hours since db =
    group same_bucket add_count (map hour_of (select (λ e. ltb since e.created_at) db.events))

-- Its loop: the total and the database, or the database where an upsert failed.
unfoldable pub upsert_each :
    (down : AnalyticsHourly → Bool) → (total : ℕ) → List AnalyticsHourly → Db → Option ℕ × Db
upsert_each down total [] db = (some total, db)
upsert_each down total (h ∷ hours) db =
    let rest = upsert_each down (total + h.count) hours (upsert_hourly h db) in
    if down h then (none, db) else rest

unfoldable pub aggregate_recent : (down : AnalyticsHourly → Bool) → (since : ℕ) → Db → Option ℕ × Db
aggregate_recent down since db = upsert_each down 0 (recent_hours since db) db

abbrev pub same_target : TopSession → TopSession → Bool
same_target a b = str_eq a.target_type b.target_type && a.target_id == b.target_id

abbrev pub add_score : TopSession → TopSession → TopSession
add_score a b = record a { score = a.score + b.score }

abbrev pub session_of : AnalyticsEvent → TopSession
session_of e = record { target_type = e.target_type; target_id = e.target_id; score = 1 }

unfoldable pub top_sessions : (since limit : ℕ) → Db → List TopSession
top_sessions since limit db =
    let n = if limit == 0 || ltb 100 limit then 10 else limit in
    let sessions =
      group same_target add_score
        (map session_of (select (λ e. leb since e.created_at) db.events)) in
    take n (sort_by (λ a b. leb b.score a.score) sessions)

abbrev pub same_start : TrendBucket → TrendBucket → Bool
same_start a b = a.bucket_start == b.bucket_start

abbrev pub add_trend : TrendBucket → TrendBucket → TrendBucket
add_trend a b = record a { count = a.count + b.count }

abbrev pub day_of : AnalyticsEvent → TrendBucket
day_of e = record { bucket_start = trunc day e.created_at; count = 1 }

unfoldable pub trend : (now : ℕ) → AnalyticsEventType → (days : ℕ) → Db → List TrendBucket
trend now event_type days db =
    let since = now - (if days == 0 then 7 else days) * day in
    let wanted =
      select (λ e. leb since e.created_at && event_eq e.event_type event_type) db.events in
    sort_by (λ a b. leb a.bucket_start b.bucket_start)
      (group same_start add_trend (map day_of wanted))

-- `event_type = $1 AND created_at >= $2 AND created_at < $3`
abbrev pub within : AnalyticsEventType → (from to : ℕ) → AnalyticsEvent → Bool
within event_type from to e =
    event_eq e.event_type event_type && leb from e.created_at && ltb e.created_at to

unfoldable pub hourly_count : AnalyticsEventType → (hour_start : ℕ) → Db → ℕ
hourly_count event_type hour_start db =
    length (select (within event_type hour_start (hour_start + hour)) db.events)

abbrev pub hour_bucket : AnalyticsEvent → TrendBucket
hour_bucket e = record { bucket_start = trunc hour e.created_at; count = 1 }

-- AVG over the hours that have an event; `COALESCE(…, 0)` is the pair (0, 0).
unfoldable pub baseline_hourly_average : AnalyticsEventType → (hour_start : ℕ) → Db → ℕ × ℕ
baseline_hourly_average event_type hour_start db =
    let rows = select (within event_type (hour_start - 7 * day) hour_start) db.events in
    let hours = group same_start add_trend (map hour_bucket rows) in
    (sum_of (λ (b : TrendBucket). b.count) hours, length hours)

unfoldable pub insert_anomaly : (new_id now : ℕ) → AnomalyAlert → Db → Db
insert_anomaly new_id now a db =
    let row : AnomalyAlert = record a {
      id = if a.id == nil_id then new_id else a.id;
      detected_at = if a.detected_at == 0 then now else a.detected_at;
    } in
    record db { alerts = db.alerts ++ row ∷ [] }

unfoldable pub list_anomalies : (limit : ℕ) → Db → List AnomalyAlert
list_anomalies limit db =
    let n = if limit == 0 || ltb 200 limit then 50 else limit in
    take n (sort_by (λ a b. leb b.detected_at a.detected_at) db.alerts)

abbrev pub is_anon : String → AnalyticsEvent → Bool
is_anon anon e = elim e.user_anon [ none ↦ false | some a ↦ str_eq a anon ]

unfoldable pub anonymise_user_events : String → Db → Db
anonymise_user_events anon db = record db {
  events = update_where (is_anon anon) (λ e. record e { user_anon = none }) db.events;
}
