-- ===== src/Auth/Service.antt =====
-- repo/internal/service/auth.go. Clocks and what the random generator gives are arguments; a call of
-- the database that fails in the driver has no effect; lines that only log are left out.
pub mod Setup
pub mod Accounts
pub mod Challenges
pub mod Login
pub mod Sessions
pub use task.Auth.Service.Setup.{
  AuthSettings, default_auth_settings, Library, AuthService, Call, Faults, and_then, ignoring,
  answering, get_by_username_, users_create, record_failed, reset_failed, sessions_create,
  sessions_get, sessions_delete, users_get, touch, update_hash, captchas_create, captchas_get,
  consume,
}
unfoldable pub use task.Auth.Service.Accounts.{register, change_password}
unfoldable pub use task.Auth.Service.Challenges.{captcha_found, verify_captcha, issue_captcha}
pub use task.Auth.Service.Login.{LoginInput}
unfoldable pub use task.Auth.Service.Login.{
  login_gate, lock_until, login_failed, login_succeeded, check_password, login_found, login,
}
unfoldable pub use task.Auth.Service.Sessions.{owner_found, session_found, resolve_session, logout}
