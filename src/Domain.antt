-- ===== src/Domain.antt =====
-- The types and rules of repo/internal/domain, which every service uses.
pub mod Errors
pub mod Status
pub mod Models
pub mod GroupBuys
pub mod Password
pub mod Examples
