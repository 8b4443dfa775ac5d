-- ===== src/Widgets.antt =====
-- The parts of pages that keep a state of their own, in frontend/src/components and
-- frontend/src/hooks.
pub mod Suggest
pub mod Popover
pub mod Presence
pub mod Picker
pub mod Selection
