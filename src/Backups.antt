-- ===== src/Backups.antt =====
-- Backups: repo/internal/service/backup.go and repo/internal/repository/backup.go.
pub mod Table
pub mod Service
pub mod Chain
pub mod Examples
