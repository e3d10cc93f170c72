-- ===== src/Server/Config.antt =====
-- repo/internal/infrastructure/config/config.go. The environment, strings.TrimSpace, strings.ToLower and
-- strconv.Atoi are given.
use Prim.Native.String.{◌++◌ as append}
use task.Base.{Bool, ◌||◌, Option, none, some, String, str_eq, if◌then◌else◌}
use task.Base.Int.{ℤ, pos, leb_ℤ}

pub record Environment : Type 0 where
  pub getenv : String → String
  pub trim_space : String → String
  pub to_lower : String → String
  pub atoi : String → Option ℤ

pub record Config : Type 0 where
  pub app_env : String
  pub app_host : String
  pub app_port : String
  pub log_level : String
  pub db_host : String
  pub db_port : String
  pub db_user : String
  pub db_password : String
  pub db_name : String
  pub db_sslmode : String
  pub db_max_conns : ℤ
  pub run_migrations : Bool
  pub run_seed : Bool
  pub cookie_secure : Bool
  pub analytics_anon_salt : String

pub data Refusal : Type 0 where
  invalid_max_conns missing_analytics_salt : Refusal

pub data Loaded : Type 0 where
  refused : Refusal → Loaded
  config : Config → Loaded

-- `getenv(key, def)`
abbrev pub or_default : String → String → String
or_default v def = if str_eq v "" then def else v

unfoldable pub parse_bool : Environment → String → Bool
parse_bool e v =
    let s = e.to_lower (e.trim_space v) in
    str_eq s "1" || str_eq s "true" || str_eq s "yes" || str_eq s "on"

abbrev pub setting : Environment → String → String → String
setting e key def = or_default (e.getenv key) def

-- A number that is not positive is refused like a text that is no number.
abbrev pub positive : Option ℤ → Option ℤ
positive none = none
positive (some n) = if leb_ℤ n (pos 0) then none else some n

unfoldable pub load : Environment → Loaded
load e =
    let salt = e.trim_space (e.getenv "ANALYTICS_ANON_SALT") in
    elim (positive (e.atoi (setting e "DB_MAX_CONNS" "10"))) [
      | none ↦ refused invalid_max_conns
      | some max_conns ↦
          if str_eq salt ""
          then refused missing_analytics_salt
          else config (record {
            app_env = setting e "APP_ENV" "production";
            app_host = setting e "APP_HOST" "0.0.0.0";
            app_port = setting e "APP_PORT" "8080";
            log_level = setting e "LOG_LEVEL" "info";
            db_host = setting e "DB_HOST" "db";
            db_port = setting e "DB_PORT" "5432";
            db_user = setting e "DB_USER" "harbor";
            db_password = setting e "DB_PASSWORD" "harbor_secret";
            db_name = setting e "DB_NAME" "harborworks";
            db_sslmode = setting e "DB_SSLMODE" "disable";
            db_max_conns = max_conns;
            run_migrations = parse_bool e (setting e "RUN_MIGRATIONS" "true");
            run_seed = parse_bool e (setting e "RUN_SEED" "true");
            cookie_secure = parse_bool e (setting e "COOKIE_SECURE" "true");
            analytics_anon_salt = salt;
          })
    ]

-- `DSN`
unfoldable pub dsn : Config → String
dsn c = append "host=" (
    append c.db_host (
      append " port=" (
        append c.db_port (
          append " user=" (
            append c.db_user (
              append " password=" (
                append c.db_password
                  (append " dbname=" (append c.db_name (append " sslmode=" c.db_sslmode))))))))))
