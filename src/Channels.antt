-- ===== src/Channels.antt =====
-- The administration of channels: frontend/src/pages/admin/channels and the pages beside it.
pub mod Csv
pub mod Page
pub mod Series
pub mod Pointer
