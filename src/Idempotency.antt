-- ===== src/Idempotency.antt =====
-- At-most-once requests: repo/internal/repository/idempotency.go and
-- repo/internal/api/middleware/idempotency.go.
pub mod Table
pub mod Middleware
pub mod System
pub mod Counts
pub mod AtMostOnce
pub mod Replay
pub mod Examples
