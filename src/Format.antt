-- ===== src/Format.antt =====
-- The formatters of frontend/src/format and of the usage pages.
pub mod Money
pub mod Integers
pub mod AuthError
