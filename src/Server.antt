-- ===== src/Server.antt =====
-- What runs around the services: repo/cmd/server/main.go and repo/internal/infrastructure.
pub mod Keys
pub mod Restart
pub mod Config
pub mod Database
pub mod Seeding
pub mod Present
pub mod Boot
pub mod FirstBoot
pub mod Connecting
pub mod InitialPassword
pub mod Examples
pub mod Runs
pub mod Jobs
