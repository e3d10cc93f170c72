-- ===== src/Documents.antt =====
-- Generated documents and their revisions: repo/internal/domain/document.go,
-- repo/internal/repository/document.go and repo/internal/service/document.go.
pub mod Table
pub mod Service
pub mod History
pub mod Refinement
pub mod Reading
pub mod Publishing
pub mod Upsert
pub mod Pdf
pub mod PdfLayout
pub mod Escaping
pub mod Examples
