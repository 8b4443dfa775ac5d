-- ===== src/Users.antt =====
-- The administration of users and the forms that it shares with the page of the own account.
pub mod Page
pub mod Forms
pub mod Templates
