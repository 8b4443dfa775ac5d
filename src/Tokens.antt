-- ===== src/Tokens.antt =====
-- The page of the user's tokens: frontend/src/pages/TokensPage.tsx.
pub mod Page
pub mod Groups
pub mod Usage
