-- ===== src/Server/Database.antt =====
-- repo/internal/infrastructure/database/postgres.go: the loop of Connect and the transaction of Seed. The
-- pool and its answers, the clock of the context, and the effect of a SQL file are given.
use task.Base.{
  ℕ, zero, suc, ◌+◌, Bool, false, List, Option, none, some, if◌then◌else◌, length, ◌==◌,
}
use task.Domain.Errors.{Result, ok, err, internal, ◌>>=◌, ◌>>◌, fail_if}

abbrev pub max_attempts : ℕ
max_attempts = 30

-- What the attempts meet: whether the context is over before an attempt and during the wait after it,
-- and whether the pool opens and answers the ping.
pub record World : Type 0 where
  pub over_before : ℕ → Bool
  pub over_waiting : ℕ → Bool
  pub opens : ℕ → Bool
  pub pings : ℕ → Bool

pub data Outcome : Type 0 where
  connected : (attempt : ℕ) → Outcome
  cancelled unreachable : Outcome

-- One turn of the loop, before what comes after it.
abbrev pub attempt_then : World → (attempt : ℕ) → Outcome → Outcome
attempt_then w attempt rest =
    if w.over_before attempt
    then cancelled
    else if (if w.opens attempt then w.pings attempt else false)
    then connected attempt
    else if w.over_waiting attempt
    then cancelled
    else rest

-- `left` counts the attempts that are left.
unfoldable pub connect_from : World → (left attempt : ℕ) → Outcome
connect_from w zero attempt = unreachable
connect_from w (suc left) attempt =
    let rest = connect_from w left (attempt + 1) in attempt_then w attempt rest

unfoldable pub connect : World → Outcome
connect w = connect_from w max_attempts 1

-- Which call of `Seed` fails.
pub record SeedFaults : Type 0 where
  pub begin_down : Bool
  pub commit_down : Bool

-- `Seed`: `run` is what the statements of the file make of the tables.
unfoldable pub seed :
    {Db : Type 0}
    → SeedFaults
    → (file : Option (List ℕ)) → (run : List ℕ → Db → Result Db) → Db
    → Result Db
seed down none run db = err internal
seed down (some text) run db = if length text == 0 then ok db else (do
  fail_if down.begin_down internal
  db' ← run text db
  fail_if down.commit_down internal
  ok db')
