-- ===== src/Groups.antt =====
-- The page of the channel groups: frontend/src/pages/admin/ChannelGroupsPage.tsx.
pub mod Editor
pub mod Order
pub mod Selection
