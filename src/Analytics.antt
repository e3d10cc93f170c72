-- ===== src/Analytics.antt =====
-- Usage analytics: repo/internal/domain/analytics.go, repo/internal/repository/analytics.go and
-- repo/internal/service/analytics.go.
pub mod Grouping
pub mod Table
pub mod Service
pub mod Counting
pub mod Examples
