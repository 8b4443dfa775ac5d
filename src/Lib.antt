-- ===== src/Lib.antt =====
-- The web console of Revlm: what its TypeScript code promises, apart from its views. The console
-- is a React application under frontend/src; a page keeps its state, asks the server through the
-- functions of frontend/src/api, and treats the answer in the same function behind the await.
-- Formatters and date helpers turn what the server sends into what a page shows.
--
-- The parts, and the files that model them:
--
--   * Base: the shared names; Base/Tests has Boolean tests, Base/Lists lists over the native
--     numbers, Base/Texts the text functions of JavaScript (a text is the list of its UTF-16
--     units), Base/Trim and Base/Decimal what trimming and printing numbers keep.
--   * Format/Money, Format/Integers, Format/AuthError: frontend/src/format/money.ts, int.ts and
--     authError.ts. formatUSDPlain is format_usd_plain, formatIntComma is format_int_comma,
--     formatAuthError is format_auth_error. formatDecimalPlain and formatUSD of
--     frontend/src/pages/usage/usageUtils.ts and of
--     frontend/src/pages/admin/usage/usageAdminUtils.ts stand in Format/Money.
--   * Dates/Calendar: the calendar of Date. Dates/Series: frontend/src/utils/timeSeries.ts, with
--     fillDailyBuckets as fill_daily_buckets. Dates/Input: frontend/src/utils/dateInput.ts.
--   * Channels/Csv: frontend/src/pages/admin/channels/utils.ts. JSON.parse is an argument of
--     validate_json.
--   * Api: the answers of the server and how a page treats them. Api/Http, Api/Tokens,
--     Api/Channels, Api/ChannelGroups and Api/Users: the requests that frontend/src/api/tokens.ts,
--     channels.ts, admin/channelGroups.ts, admin/users.ts and account.ts make; each child Routes
--     has a reader of them by method and path, with the pieces of paths in Api/Paths. Api/Usage:
--     the requests of frontend/src/api/usage.ts, admin/usage.ts, dashboard.ts, admin/dashboard.ts,
--     models.ts and billing.ts.
--   * Auth/Session: frontend/src/auth/AuthContext.tsx and RequireAuth.tsx. Auth/Pages:
--     frontend/src/pages/LoginPage.tsx, RegisterPage.tsx and AccountPage.tsx.
--   * Usage/AdminQuery: the query builder of frontend/src/pages/admin/usage/usageAdminUtils.ts.
--     Usage/AdminPage: the state of frontend/src/pages/admin/UsageAdminPage.tsx and its refresh;
--     its child Handlers has the handlers, its child Steps the page as a transition system.
--   * Usage/UserPage: the state and refresh of frontend/src/pages/UsagePage.tsx, and its child
--     Handlers the handlers. Usage/Labels: frontend/src/pages/usage/usageUtils.ts.
--     Usage/Dashboard: the data and the series of frontend/src/pages/DashboardPage.tsx.
--   * Tokens/Page and its child Handlers: the table of tokens in
--     frontend/src/pages/TokensPage.tsx. Tokens/Groups: the dialog of a token's channel group
--     there, Tokens/Usage: the dialog of its usage.
--   * Groups/Editor and its child Handlers: the form of a channel group in
--     frontend/src/pages/admin/ChannelGroupsPage.tsx, its draft and what is saved. Groups/Order:
--     the order of the members there, Groups/Selection: the group that the address chooses.
--   * Widgets/Suggest: the input with suggestions of
--     frontend/src/components/GenericSuggestInput.tsx; its child Merge has the items that are
--     shown, its child Steps the input as a transition system, its child Waits that system while
--     the user does nothing. Widgets/Popover and Widgets/Presence:
--     frontend/src/hooks/useAnchoredPopover.ts and usePresence.ts. Widgets/Picker:
--     frontend/src/components/DateRangePicker.tsx, its child Sessions with the page's range.
--     Widgets/Selection: frontend/src/hooks/useAdminSelectionParam.ts.
--   * Channels/Page: the table of frontend/src/pages/admin/ChannelsPage.tsx, with
--     applyChannelPatch as apply_channel_patch and normalizeChannelSections as
--     normalize_channel_sections; its child Presets has a range that is applied in its picker, its
--     child Settings the dialog of the settings with
--     frontend/src/pages/admin/channels/ChannelCommonTab.tsx. Channels/Series: the statistics of a
--     channel there, Channels/Pointer: the dialog of the pointer.
--   * Users/Page: frontend/src/pages/admin/UsersPage.tsx. Users/Forms and Users/Templates:
--     frontend/src/components/admin/ConfigForm.tsx and configTemplates.ts.
--   * Models/Groups: frontend/src/pages/ModelsPage.tsx, over the sort of Models/Sorting.
--     Models/Pricing: frontend/src/modelPricingDisplay.ts.
--   * Tests: the theorems at concrete inputs, and runs of the code.
--
-- State and calls. A page is a record of its state variables, and a handler is a function to the
-- state that its setters leave, with the call of refresh that it makes. On the admin usage page,
-- the usage page, the dashboard, the dialog of a token's usage, the input with suggestions and the
-- series of a channel a query and its answer are two steps, so that other steps stand between
-- them; the presence of a panel is a transition system of renders, frames and its timer; on the
-- other pages a handler takes the answers as arguments and runs to its end. An answer is a Reply:
-- a response, or an exception that is an Error or another value. What the browser decides (the
-- time zone, the clipboard, the parsing of JSON, the comparison of a locale) is an argument; the
-- theorems on sorting take such a comparison to be total and transitive.
--
-- Bounds and fuel. Numbers are natural numbers, but priorities and places on the screen are whole
-- ones; identifiers are never negative. The loop of groupDigitsComma runs on one round more than
-- there are digits, and the loop of fillDailyBuckets on one round for each day of the range and
-- one for the last test; running out of fuel is none, and the theorems on both say that the result
-- is some. Years run from 0 to 9999 where a date is printed with four digits.
--
-- Not modelled: the C++ server, views and charts, which are markup and calls of libraries; the
-- dashboard of an administrator and the page of the top-up; and the texts made from fractions by
-- toFixed.
pub mod Base
pub mod Format
pub mod Dates
pub mod Channels
pub mod Api
pub mod Auth
pub mod Usage
pub mod Tokens
pub mod Groups
pub mod Widgets
pub mod Models
pub mod Users
pub mod Tests
