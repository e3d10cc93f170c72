-- ===== src/Analytics/Examples.antt =====
-- Concrete runs of repo/internal/service/analytics.go.
use task.Base.{ℕ, ◌+◌, ◌*◌, ◌≡◌, refl, true, none, [], ◌∷◌, run}
use task.Domain.Models.{hour}
use task.Analytics.Table.{AnalyticsEvent, AnalyticsHourly, Db, view, same_bucket}
use task.Analytics.Service.{is_anomaly}
use task.Analytics.Counting.{count_of, covered, after_run, runs_count}

abbrev seen : ℕ → AnalyticsEvent
seen at = record {
  id = 1;
  event_type = view;
  target_type = "resource";
  target_id = 4;
  user_anon = none;
  created_at = at;
}

abbrev bucket : AnalyticsHourly
bucket = record {
  bucket_start = 5 * hour;
  event_type = view;
  target_type = "resource";
  target_id = 4;
  count = 0;
}

abbrev recorded : Db
recorded = record { events = seen (5 * hour + 7) ∷ []; hourly = []; alerts = [] }

-- One event, counted by two runs a minute apart.
runs_count_example :
    count_of bucket (run after_run recorded ((6 * hour) ∷ (6 * hour + 60_000_000_000) ∷ []))
    ≡ count_of bucket recorded
      + covered bucket ((6 * hour) ∷ (6 * hour + 60_000_000_000) ∷ []) recorded
runs_count_example = runs_count bucket ((6 * hour) ∷ (6 * hour + 60_000_000_000) ∷ []) recorded

twice : covered bucket ((6 * hour) ∷ (6 * hour + 60_000_000_000) ∷ []) recorded ≡ 2
unfolding same_bucket
twice = refl

-- Ten views in the hour against an average of three.
spike : is_anomaly (record { digest = λ id. ""; anomaly_x = 3 }) 10 (6, 2) ≡ true
unfolding is_anomaly
spike = refl
