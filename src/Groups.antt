-- ===== src/Groups.antt =====
-- Group reservations and the masking of their organizers: repo/internal/domain/models.go,
-- repo/internal/repository/group.go, repo/internal/service/group.go and
-- repo/internal/api/handlers/group.go.
pub mod Masking
pub mod Table
pub mod Handler
