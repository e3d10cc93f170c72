-- ===== src/Analytics/Service.antt =====
-- repo/internal/service/analytics.go. The hash is a parameter; ratios are compared exactly, where the
-- code compares floating-point numbers.
use task.Base.{
  ℕ, ◌-◌, ◌*◌, Bool, true, false, ◌||◌, Option, none, some, List, [], ◌∷◌, String, ltb, ◌==◌,
  if◌then◌else◌,
}
use task.Domain.Errors.{Result, ok, err, database, query, ◌>>=◌}
use task.Domain.Models.{hour, nil_id}
use task.Analytics.Table.{
  AnalyticsEventType, view, favorite, comment, download, AnalyticsEvent, AnalyticsHourly,
  AnomalyAlert, Db, TrendBucket, TopSession, trunc, record_event, aggregate_recent, hourly_count,
  baseline_hourly_average, insert_anomaly, anonymise_user_events, top_sessions, trend,
}

-- `digest` is the hexadecimal SHA-256 of the salt and the identifier.
pub record AnalyticsService : Type 0 where
  pub digest : ℕ → String
  pub anomaly_x : ℕ

unfoldable pub anon : AnalyticsService → ℕ → String
anon s user_id = if user_id == nil_id then "" else s.digest user_id

unfoldable pub track :
    AnalyticsService
    → (down : Bool) → (new_id now : ℕ) → AnalyticsEventType
    → String
    → (target_id user_id : ℕ) → Db
    → Result (AnalyticsEvent × Db)
track s down new_id now event_type target_type target_id user_id db =
    let e : AnalyticsEvent = record {
      id = 0;
      event_type = event_type;
      target_type = target_type;
      target_id = target_id;
      user_anon = some (anon s user_id);
      created_at = 0;
    } in
    query down (record_event new_id now e db)

-- `TopSessions`
unfoldable pub recent_top_sessions : (now days limit : ℕ) → Db → List TopSession
recent_top_sessions now days limit db =
    top_sessions (now - (if days == 0 then 7 else days) * 24 * hour) limit db

unfoldable pub trends : (now : ℕ) → AnalyticsEventType → Db → List (ℕ × List TrendBucket)
trends now event_type db =
    (7, trend now event_type 7 db)
    ∷ (30, trend now event_type 30 db)
    ∷ (90, trend now event_type 90 db)
    ∷ []

abbrev pub aggregated : Option ℕ × Db → Result (Unit {0}) × Db
aggregated (none, db) = (err database, db)
aggregated (some n, db) = (ok tt, db)

-- `RunAggregation`: the query of the recent hours may fail, and so may each upsert.
unfoldable pub run_aggregation :
    (down : Bool) → (AnalyticsHourly → Bool) → (now : ℕ) → Db → Result (Unit {0}) × Db
run_aggregation true down_upsert now db = (err database, db)
run_aggregation false down_upsert now db =
    aggregated (aggregate_recent down_upsert (now - 2 * hour) db)

-- `ratio > s.anomalyX`, unless `baseline < 1 || observed == 0`. The baseline is total / hours.
unfoldable pub is_anomaly : AnalyticsService → (observed : ℕ) → (baseline : ℕ × ℕ) → Bool
is_anomaly s observed (total, hours) =
    if ltb total hours || hours == 0 || observed == 0
    then false
    else ltb (s.anomaly_x * total) (observed * hours)

-- What the detection of one type of events meets.
pub record Detection : Type 0 where
  pub count_down : Bool
  pub baseline_down : Bool
  pub insert_down : Bool
  pub new_id : ℕ
  pub at : ℕ

abbrev pub new_alert : AnalyticsEventType → ℕ → (ℕ × ℕ) → AnomalyAlert
new_alert event_type observed baseline = record {
  id = 0;
  detected_at = 0;
  event_type = event_type;
  observed = observed;
  baseline = baseline;
}

-- A failed insertion is logged and skipped.
abbrev pub alerted : AnalyticsService → Detection → AnalyticsEventType → ℕ → (ℕ × ℕ) → Db → Db
alerted s d event_type observed baseline db =
    if is_anomaly s observed baseline
    then (if d.insert_down
        then db
        else insert_anomaly d.new_id d.at (new_alert event_type observed baseline) db)
    else db

-- One round of the loop.
unfoldable pub detect :
    AnalyticsService → Detection → (hour_start : ℕ) → AnalyticsEventType → Db → Result Db
detect s d hour_start event_type db = do
  observed ← query d.count_down (hourly_count event_type hour_start db)
  baseline ← query d.baseline_down (baseline_hourly_average event_type hour_start db)
  ok (alerted s d event_type observed baseline db)

-- The loop, with the database as it is when a query fails.
unfoldable pub detect_each :
    AnalyticsService
    → (AnalyticsEventType → Detection)
    → (hour_start : ℕ) → List AnalyticsEventType
    → Db
    → Result (Unit {0}) × Db
detect_each s meet hour_start [] db = (ok tt, db)
detect_each s meet hour_start (event_type ∷ types) db =
    elim (detect s (meet event_type) hour_start event_type db) [
      | ok db' ↦ detect_each s meet hour_start types db'
      | err e ↦ (err e, db)
    ]

unfoldable pub run_anomaly_detection :
    AnalyticsService → (AnalyticsEventType → Detection) → (now : ℕ) → Db → Result (Unit {0}) × Db
run_anomaly_detection s meet now db =
    detect_each s meet (trunc hour now - hour) (view ∷ favorite ∷ comment ∷ download ∷ []) db

-- `AnonymiseUserEvents`
unfoldable pub anonymise : AnalyticsService → (user_id : ℕ) → Db → Db
anonymise s user_id db = anonymise_user_events (anon s user_id) db
