-- ===== src/Api.antt =====
-- The answers of the server: frontend/src/api/types.ts, and how a page treats them. The children are
-- the calls of frontend/src/api.
pub mod Http
pub mod Paths
pub mod Tokens
pub mod ChannelGroups
pub mod Channels
pub mod Users
pub mod Usage
use revlm.Base.{Bool, Option, none, some, [], ◌∷◌, if◌then◌else◌, or_else, Text}

pub record ApiResponse {ℓ} (A : Type ℓ) : Type ℓ where
  pub success : Bool
  pub message : Option Text
  pub body : Option A

-- What a call comes to: an answer, or an exception, an `Error` with its message or another value.
pub data Reply {ℓ} (A : Type ℓ) : Type ℓ where
  answered : ApiResponse A → Reply A
  error : Text → Reply A
  thrown : Reply A

-- What the body of a page's `try` goes on with: the data, or the text that its `catch` shows.
pub data Outcome {ℓ} (A : Type ℓ) : Type ℓ where
  loaded : Option A → Outcome A
  failed : Text → Outcome A

-- `s || d`
abbrev pub or_text : Text → Text → Text
or_text [] d = d
or_text (c ∷ s) d = c ∷ s

-- `s || undefined`
abbrev pub non_empty : Text → Option Text
non_empty [] = none
non_empty (c ∷ s) = some (c ∷ s)

-- `if (!res.success) throw new Error(res.message || fallback)`, and in the `catch`
-- `e instanceof Error ? e.message : fallback`.
abbrev pub settle {ℓ} : {A : Type ℓ} → Text → Reply A → Outcome A
settle fallback (answered r) =
    if r.success then loaded r.body else failed (or_text (or_else r.message []) fallback)
settle fallback (error message) = failed message
settle fallback thrown = failed fallback
