-- ===== src/GroupBuy.antt =====
-- Group buys: repo/internal/repository/groupbuy.go and repo/internal/service/groupbuy.go.
pub mod Table
pub mod Service
pub mod System
pub mod Change
pub mod Fair
pub mod Late
pub mod Retry
pub mod Sweeping
pub mod Interleaving
pub mod Examples
