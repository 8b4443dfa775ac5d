-- ===== src/Usage.antt =====
-- The usage pages: frontend/src/pages/usage and frontend/src/pages/admin/usage, with the pages that
-- hold their state.
pub mod AdminQuery
pub mod AdminPage
pub mod Labels
pub mod UserPage
pub mod Dashboard
