-- ===== src/Inbox.antt =====
-- Notifications and to-dos: repo/internal/domain/notification.go,
-- repo/internal/repository/notification.go and repo/internal/service/notification.go.
pub mod Table
pub mod Service
pub mod Reading
