-- ===== src/Auth.antt =====
-- The session of the console: frontend/src/auth.
pub mod Session
pub mod Laws
pub mod Pages
