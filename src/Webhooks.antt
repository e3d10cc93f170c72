-- ===== src/Webhooks.antt =====
-- Webhooks: repo/internal/service/webhook.go and repo/internal/repository/webhook.go.
pub mod Target
pub mod Mapping
pub mod Table
pub mod Service
pub mod Lifecycle
pub mod Events
pub mod Settled
pub mod Retrying
pub mod Rounds
pub mod Examples
