-- ===== src/Dates.antt =====
-- The date helpers of frontend/src/utils, over the calendar that the language's `Date` counts by.
pub mod Calendar
pub mod Input
pub mod Series
