-- ===== src/Governance.antt =====
-- Data governance: repo/internal/service/governance.go, repo/internal/repository/governance.go and the
-- statements of user.go and resource.go in that folder which it uses.
pub mod Table
pub mod Registry
pub mod Deletion
pub mod Erasure
pub mod Csv
pub mod Import
pub mod AllOrNothing
pub mod Importing
pub mod Examples
