-- ===== src/Auth/Service/Login.antt =====
-- Login of repo/internal/service/auth.go.
use task.Base.{ℕ, ◌+◌, not, ◌||◌, Option, none, some, String, leb, str_eq, if◌then◌else◌}
use task.Domain.Errors.{
  Result, ok, err, query, ◌>>◌, not_found, locked, captcha_required, credential_invalid, internal,
}
use task.Domain.Models.{User, Session, captcha_required_for, is_locked}
use task.Auth.Table.{Db, get_by_username, record_failed_login, reset_failed_login, insert_session}
use task.Auth.Service.Setup.{
  AuthSettings, AuthService, get_by_username_, record_failed, reset_failed, sessions_create, Faults,
  and_then,
}
use task.Auth.Service.Challenges.{verify_captcha}

pub record LoginInput : Type 0 where
  pub username : String
  pub password : String
  pub captcha_token : String
  pub captcha_answer : String
  pub user_agent : String
  pub ip : String

-- The two checks of `Login` before the password.
unfoldable pub login_gate :
    AuthService → Faults → (now : ℕ) → LoginInput → User → Db → Result (Unit {0}) × Db
login_gate s down now input u db =
    if is_locked u now
    then (err locked, db)
    else if not (captcha_required_for u)
    then (ok tt, db)
    else if str_eq input.captcha_token "" || str_eq input.captcha_answer ""
    then (err captcha_required, db)
    else verify_captcha s down input.captcha_token input.captcha_answer now db

-- The lock that a failed attempt sets.
unfoldable pub lock_until : AuthSettings → (now : ℕ) → User → Option ℕ
lock_until cfg now u =
    if leb cfg.lockout_threshold (u.failed_attempts + 1)
    then some (now + cfg.lockout_duration)
    else none

-- `Login` when the password does not match.
unfoldable pub login_failed :
    AuthService → Faults → (now stamp : ℕ) → User → Db → Result (User × Session) × Db
login_failed s down now stamp u db =
    let lock = lock_until s.cfg now u in
    (
      elim lock [ none ↦ err credential_invalid | some _ ↦ err locked ],
      if down record_failed then db else record_failed_login stamp u.id lock db,
    )

-- `Login` when it does; `token` is what `generateToken` gives.
unfoldable pub login_succeeded :
    AuthService
    → Faults
    → (now stamp : ℕ) → Option String
    → LoginInput
    → User
    → Db
    → Result (User × Session) × Db
login_succeeded s down now stamp token input u db =
    let db' = if down reset_failed then db else reset_failed_login stamp u.id now db in
    elim token [
      | none ↦ (err internal, db')
      | some id ↦
          let sess : Session = record {
            id = id;
            user_id = u.id;
            created_at = now;
            last_activity_at = now;
            expires_at = now + s.cfg.session_inactivity;
            user_agent = input.user_agent;
            ip = input.ip;
          } in
          let u' = record u {
            failed_attempts = 0;
            locked_until = none;
            last_login_at = some now;
          } in
          elim (query (down sessions_create) tt >> insert_session sess db') [
            | ok db'' ↦ (ok (u', sess), db'')
            | err e ↦ (err e, db')
          ]
    ]

-- `Login` from the check of the password on.
unfoldable pub check_password :
    AuthService
    → Faults
    → (now stamp : ℕ) → Option String
    → LoginInput
    → User
    → Db
    → Result (User × Session) × Db
check_password s down now stamp token input u db =
    if s.lib.compare_hash_and_password u.password_hash input.password
    then login_succeeded s down now stamp token input u db
    else login_failed s down now stamp u db

-- `Login` when the query of the user has answered.
abbrev pub login_found :
    AuthService
    → Faults
    → (now stamp : ℕ) → Option String
    → LoginInput
    → Db
    → Result User
    → Result (User × Session) × Db
login_found s down now stamp token input db (ok u) =
    and_then (login_gate s down now input u db)
      (λ _ db'. check_password s down now stamp token input u db')
login_found s down now stamp token input db (err not_found) = (err credential_invalid, db)
login_found s down now stamp token input db (err e) = (err e, db)

-- `Login`
unfoldable pub login :
    AuthService
    → Faults
    → (now stamp : ℕ) → Option String
    → LoginInput
    → Db
    → Result (User × Session) × Db
login s down now stamp token input db = login_found s down now stamp token input db (
    query (down get_by_username_) tt
    >> get_by_username s.lib.lower (s.lib.trim_space input.username) db)
