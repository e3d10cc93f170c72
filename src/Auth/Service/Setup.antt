-- ===== src/Auth/Service/Setup.antt =====
-- The settings, the library calls and the database calls of repo/internal/service/auth.go.
use task.Base.{ℕ, ◌*◌, Bool, Option, String}
use task.Domain.Errors.{Result, ok, err}
use task.Domain.Models.{minute, hour}
use task.Domain.Password.{Unicode}
use task.Auth.Table.{Db}

-- The settings that the functions below read.
pub record AuthSettings : Type 0 where
  pub session_inactivity : ℕ
  pub session_absolute_ttl : ℕ
  pub lockout_threshold : ℕ
  pub lockout_duration : ℕ
  pub captcha_ttl : ℕ

abbrev pub default_auth_settings : AuthSettings
default_auth_settings = record {
  session_inactivity = 30 * minute;
  session_absolute_ttl = 12 * hour;
  lockout_threshold = 5;
  lockout_duration = 15 * minute;
  captcha_ttl = 5 * minute;
}

-- What the service calls outside the repository: `strings.TrimSpace`, the LOWER of the database, the
-- package `bcrypt` at the configured cost (it refuses long passwords), the classes of `unicode`, and
-- the decimal digits that `fmt` prints.
pub record Library : Type 0 where
  pub trim_space : String → String
  pub lower : String → String
  pub generate_from_password : String → Option String
  pub compare_hash_and_password : (hash password : String) → Bool
  pub unicode : Unicode
  pub decimal : ℕ → String

pub record AuthService : Type 0 where
  pub cfg : AuthSettings
  pub lib : Library

-- The calls of the database.
pub data Call : Type 0 where
  get_by_username_ users_create record_failed reset_failed sessions_create : Call
  sessions_get sessions_delete users_get touch update_hash captchas_create captchas_get consume :
      Call

abbrev pub Faults : Type 0
Faults = Call → Bool

-- A step that may refuse, and the rows that it leaves either way; then the rest.
abbrev pub and_then {ℓ κ} :
    {A : Type ℓ} {B : Type κ} → Result A × Db → (A → Db → Result B × Db) → Result B × Db
and_then (ok a, db) k = k a db
and_then (err e, db) k = (err e, db)

-- A call whose error is ignored, or the rows that it leaves.
abbrev pub ignoring : Db → Result Db → Db
ignoring db (ok db') = db'
ignoring db (err e) = db

abbrev pub answering : Db → Result Db → Result (Unit {0}) × Db
answering db (ok db') = (ok tt, db')
answering db (err e) = (err e, db)
