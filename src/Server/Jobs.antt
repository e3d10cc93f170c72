-- ===== src/Server/Jobs.antt =====
-- repo/internal/infrastructure/jobs/runner.go and the jobs of repo/cmd/server/main.go. A job's interval
-- is in nanoseconds; its ticker and the context are given as a list of signals.
use task.Base.{ℕ, ◌*◌, List, [], ◌∷◌, ◌++◌, String}
use task.Domain.Errors.{Result}
use task.Domain.Models.{minute, hour}

-- A job over what the jobs share; its error is only logged.
pub record Job (S : Type 0) : Type 0 where
  pub name : String
  pub interval : ℕ
  pub run : S → Result (Unit {0}) × S

pub data Signal : Type 0 where
  tick cancelled : Signal

-- `Add`
abbrev pub add : {S : Type 0} → Job S → List (Job S) → List (Job S)
add j jobs = jobs ++ j ∷ []

-- `runOnce`
abbrev pub run_once : {S : Type 0} → Job S → S → S
run_once j s = (j.run s).1

-- The loop of one job after its first run: signals after the cancellation are not looked at.
unfoldable pub await : {S : Type 0} → Job S → List Signal → S → S
await j [] s = s
await j (cancelled ∷ signals) s = s
await j (tick ∷ signals) s = await j signals (run_once j s)

-- `loop`
unfoldable pub loop : {S : Type 0} → Job S → List Signal → S → S
loop j signals s = await j signals (run_once j s)

-- What `main` runs in the background.
pub record Background (S : Type 0) : Type 0 where
  pub aggregation : S → Result (Unit {0}) × S
  pub anomaly_detection : S → Result (Unit {0}) × S
  pub sweep_expired : S → Result (Unit {0}) × S
  pub deletion_executor : S → Result (Unit {0}) × S
  pub delivery_cycle : S → Result (Unit {0}) × S
  pub take_incremental : S → Result (Unit {0}) × S
  pub take_full : S → Result (Unit {0}) × S

abbrev pub second : ℕ
second = 1_000_000_000

unfoldable pub background_jobs : {S : Type 0} → Background S → List (Job S)
background_jobs b =
    record { name = "analytics-aggregate"; interval = 1 * minute; run = b.aggregation }
    ∷ record { name = "anomaly-detect"; interval = 5 * minute; run = b.anomaly_detection }
    ∷ record { name = "groupbuy-sweep"; interval = 1 * minute; run = b.sweep_expired }
    ∷ record { name = "deletion-executor"; interval = 5 * minute; run = b.deletion_executor }
    ∷ record { name = "webhook-deliver"; interval = 5 * second; run = b.delivery_cycle }
    ∷ record { name = "backup-incremental"; interval = 24 * hour; run = b.take_incremental }
    ∷ record { name = "backup-full-weekly"; interval = 7 * 24 * hour; run = b.take_full }
    ∷ []
