-- ===== src/Auth.antt =====
-- Authentication: repo/internal/service/auth.go and the repositories of users, sessions and captchas.
pub mod Table
pub mod Administration
pub mod Service
pub mod Gate
pub mod Lockout
pub mod Captcha
pub mod Sessions
pub mod Credentials
pub mod Examples
