-- ===== src/Tests.antt =====
-- The theorems of the library at concrete inputs, and runs of the modelled code.
mod Formats
mod Dates
mod Lists
mod Sessions
mod AdminUsage
mod UserUsage
mod Tokens
mod TokenUsage
mod Pickers
mod Groups
mod Widgets
mod ChannelPages
mod Users
mod Models
