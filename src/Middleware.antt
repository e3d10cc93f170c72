-- ===== src/Middleware.antt =====
-- The gates and the response cache before the handlers: repo/internal/api/middleware/auth.go and
-- cache.go in that folder, repo/internal/infrastructure/cache/cache.go and repo/internal/api/router.go.
pub mod Cache
pub mod Shared
pub mod Gates
pub mod Router
pub mod Access
pub mod Guarded
pub mod Examples
