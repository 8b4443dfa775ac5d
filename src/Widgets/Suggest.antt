-- ===== src/Widgets/Suggest.antt =====
-- The input with suggestions of frontend/src/components/GenericSuggestInput.tsx: its state, the effect
-- that arms the timer of a search, and the answers. A search carries the number that `reqSeqRef` had
-- when its timer was set. How the panel is drawn is left out.
pub mod Merge
pub mod Items
pub mod Steps
pub mod Invariant
pub mod Waits
pub mod Live
use revlm.Base.{
  ℕ, ◌+◌, Bool, true, false, not, ◌&&◌, ◌||◌, Option, none, some, List, [], ◌∷◌, ◌++◌, ◌==◌,
  if◌then◌else◌, or_else, Text, codes, text_eq, is_empty, trim,
}

-- A search by the text `q`, whose timer runs or whose answer is not there yet.
pub record Search : Type 0 where
  pub seq : ℕ
  pub query : Text

-- How the promise of `fetchItems` ends.
pub data Fetched (T : Type 0) : Type 0 where
  resolved : Option (List T) → Fetched T
  rejected : Text → Fetched T
  rejected_other : Fetched T

pub record SuggestInput (T : Type 0) : Type 0 where
  pub value : Text
  pub focused : Bool
  pub loading : Bool
  pub items : List T
  pub err : Text
  pub req_seq : ℕ
  pub timer : Option Search
  pub sent : List Search

abbrev pub same_focus : Bool → Bool → Bool
same_focus true b = b
same_focus false b = not b

module _ {T : Type 0} where
  abbrev pub initial : Text → SuggestInput T
  initial value = record {
    value = value;
    focused = false;
    loading = false;
    items = [];
    err = [];
    req_seq = 0;
    timer = none;
    sent = [];
  }

  -- `q`
  abbrev pub query_of : SuggestInput T → Text
  query_of s = trim s.value

  abbrev nothing_to_seek : SuggestInput T → SuggestInput T
  nothing_to_seek s = record s { items = []; err = []; loading = false; timer = none }

  abbrev arm : SuggestInput T → SuggestInput T
  arm s = record s {
    req_seq = s.req_seq + 1;
    timer = some (record { seq = s.req_seq + 1; query = query_of s });
  }

  -- The effect, behind the clean-up of the run before it.
  unfoldable pub effect : SuggestInput T → SuggestInput T
  effect s =
      if s.focused
      then (if is_empty (query_of s) then nothing_to_seek s else arm s)
      else record s { timer = none }

  -- A render runs the effect if what it depends on has changed.
  unfoldable pub rendered : SuggestInput T → SuggestInput T → SuggestInput T
  unfolding effect
  rendered old new =
      if text_eq (query_of old) (query_of new) && same_focus old.focused new.focused
      then new
      else effect new

  unfoldable pub change : Text → SuggestInput T → SuggestInput T
  unfolding rendered
  change value s = rendered s (record s { value = value })

  unfoldable pub set_focused : Bool → SuggestInput T → SuggestInput T
  unfolding rendered
  set_focused focused s = rendered s (record s { focused = focused })

  -- The timer of the search `f` runs off.
  unfoldable pub fire : Search → SuggestInput T → SuggestInput T
  fire f s = record s { timer = none; loading = true; err = []; sent = s.sent ++ f ∷ [] }

  abbrev pub absorb : Fetched T → SuggestInput T → SuggestInput T
  absorb (resolved found) s = record s { items = or_else found []; loading = false }
  absorb (rejected message) s = record s { items = []; err = message; loading = false }
  absorb rejected_other s = record s { items = []; err = codes "加载失败"; loading = false }

  -- An answer counts only for the last search.
  unfoldable pub receive : Search → Fetched T → SuggestInput T → SuggestInput T
  receive f answer s = if s.req_seq == f.seq then absorb answer s else s

  abbrev has_items : List T → Bool
  has_items [] = false
  has_items (x ∷ xs) = true

  -- Whether the panel is open; `merged` are the items that it would show.
  unfoldable pub is_open : List T → SuggestInput T → Bool
  is_open merged s =
      s.focused
      && not (is_empty (query_of s))
      && (s.loading || not (is_empty s.err) || has_items merged)
