-- ===== src/Usage/AdminQuery.antt =====
-- The query parameters of frontend/src/pages/admin/usage/usageAdminUtils.ts. Identifiers are natural
-- numbers. A field of an override that is undefined counts as one that is not there, since the code
-- reads it by `??`; the cursor's fields are looked up by `in`, so there the two differ.
pub mod Filters
pub mod Laws
use revlm.Base.{
  String, ℕ, zero, suc, Bool, true, false, not, ◌&&◌, ◌||◌, Option, none, some, List, [], ◌∷◌, ◌++◌,
  if◌then◌else◌, or_else, is_some, Text, codes, is_empty, trim, join,
}
use revlm.Api.{non_empty}

pub record QueryState : Type 0 where
  pub start : Text
  pub end : Text
  pub all_time : Bool
  pub limit : ℕ
  pub before_id : Option ℕ
  pub after_id : Option ℕ
  pub filter_user : Text
  pub filter_user_id : Option ℕ
  pub filter_channel : Text
  pub filter_channel_id : Option ℕ
  pub filter_model : Text
  pub filter_model_exact : Option Text

pub record RefreshOverride : Type 0 where
  pub start : Option Text
  pub end : Option Text
  pub all_time : Option Bool
  pub filter_user : Option Text
  pub filter_user_id : Option ℕ
  pub filter_channel : Option Text
  pub filter_channel_id : Option ℕ
  pub filter_model : Option Text
  pub filter_model_exact : Option Text

-- `override` left out.
abbrev pub no_override : RefreshOverride
no_override = record {
  start = none;
  end = none;
  all_time = none;
  filter_user = none;
  filter_user_id = none;
  filter_channel = none;
  filter_channel_id = none;
  filter_model = none;
  filter_model_exact = none;
}

-- `some none` is a field that is there and undefined.
pub record CursorOverride : Type 0 where
  pub before_id : Option (Option ℕ)
  pub after_id : Option (Option ℕ)

abbrev pub no_cursor : CursorOverride
no_cursor = record { before_id = none; after_id = none }

pub record Query : Type 0 where
  pub start_value : Text
  pub end_value : Text
  pub all_time_value : Bool
  pub q_user : Text
  pub q_user_id : Option ℕ
  pub q_channel : Text
  pub q_channel_id : Option ℕ
  pub q_model : Text
  pub q_model_exact : Option Text

pub record Params : Type 0 where
  pub start : Option Text
  pub end : Option Text
  pub all_time : Option Bool
  pub limit : ℕ
  pub before_id : Option ℕ
  pub after_id : Option ℕ
  pub summary : Option Bool
  pub user_id : Option ℕ
  pub channel_id : Option ℕ
  pub model : Option Text
  pub index : Option Text
  pub q_user : Option Text
  pub q_channel : Option Text
  pub q_model : Option Text

pub record PageQuery : Type 0 where
  pub params : Params
  pub all_time_active : Bool
  pub start_value : Text
  pub end_value : Text

unfoldable pub is_all_time_range : Bool → Text → Text → Bool
is_all_time_range all_time start end = all_time && is_empty (trim start) && is_empty (trim end)

-- `override?.x ?? state.x`, where both may be missing.
abbrev pub or_option {ℓ} : {A : Type ℓ} → Option A → Option A → Option A
or_option none d = d
or_option (some a) d = some a

unfoldable pub resolve_query_input : QueryState → RefreshOverride → Query
resolve_query_input state override = record {
  start_value = trim (or_else override.start state.start);
  end_value = trim (or_else override.end state.end);
  all_time_value = or_else override.all_time state.all_time;
  q_user = trim (or_else override.filter_user state.filter_user);
  q_user_id = or_option override.filter_user_id state.filter_user_id;
  q_channel = trim (or_else override.filter_channel state.filter_channel);
  q_channel_id = or_option override.filter_channel_id state.filter_channel_id;
  q_model = trim (or_else override.filter_model state.filter_model);
  q_model_exact = or_option override.filter_model_exact state.filter_model_exact;
}

-- `typeof id === 'number' && id > 0 ? id : undefined`, and `!!id`
abbrev pub positive : Option ℕ → Option ℕ
positive none = none
positive (some zero) = none
positive (some (suc n)) = some (suc n)

abbrev pub is_set : Option ℕ → Bool
is_set o = is_some (positive o)

-- `text || undefined` of a text that may be missing, and `!!text`
abbrev pub present : Option Text → Option Text
present none = none
present (some s) = non_empty s

abbrev pub is_given : Option Text → Bool
is_given o = is_some (present o)

-- `parts.join(',')` of those parts that are not empty, or undefined if there are none.
abbrev pub join_parts : List Text → Option Text
join_parts [] = none
join_parts (p ∷ ps) = some (join (p ∷ ps) b',')

abbrev pub index_part : Bool → String → List Text
index_part b name = if b then codes name ∷ [] else []

unfoldable pub build_index : Query → Option Text
build_index q = join_parts (
    index_part (not (is_set q.q_user_id) && not (is_empty q.q_user)) "user"
    ++ index_part (not (is_set q.q_channel_id) && not (is_empty q.q_channel)) "channel"
    ++ index_part (not (is_given q.q_model_exact) && not (is_empty q.q_model)) "model")

unfoldable pub build_filter_params : ℕ → Query → Params
unfolding build_index
build_filter_params limit q = record {
  start = none;
  end = none;
  all_time = none;
  limit = limit;
  before_id = none;
  after_id = none;
  summary = none;
  user_id = positive q.q_user_id;
  channel_id = positive q.q_channel_id;
  model = present q.q_model_exact;
  index = build_index q;
  q_user = if is_set q.q_user_id then none else non_empty q.q_user;
  q_channel = if is_set q.q_channel_id then none else non_empty q.q_channel;
  q_model = if is_given q.q_model_exact then none else non_empty q.q_model;
}

unfoldable pub apply_range_params : Params → Bool → Text → Text → Params
apply_range_params params all_time_active start_value end_value =
    if all_time_active
    then record params { all_time = some true }
    else record params { start = non_empty start_value; end = non_empty end_value }

-- The last three lines of `applyCursorParams`.
abbrev pub set_cursor : Params → Option ℕ → Option ℕ → Params
set_cursor params before after = record params {
  before_id = or_option before params.before_id;
  after_id = or_option after params.after_id;
  summary = if is_some before || is_some after then some false else params.summary;
}

unfoldable pub apply_cursor_params : Params → QueryState → Bool → CursorOverride → Params
apply_cursor_params params state keep_cursor cursor =
    if not keep_cursor
    then params
    else set_cursor params (positive (or_else cursor.before_id state.before_id))
        (positive (or_else cursor.after_id state.after_id))

unfoldable pub build_admin_usage_page_params :
    QueryState → RefreshOverride → Bool → CursorOverride → PageQuery
unfolding is_all_time_range resolve_query_input build_filter_params apply_range_params
    apply_cursor_params
build_admin_usage_page_params state override keep_cursor cursor =
    let query = resolve_query_input state override in
    let all_time_active =
      is_all_time_range query.all_time_value query.start_value query.end_value in
    record {
      params =
          apply_cursor_params
            (apply_range_params (build_filter_params state.limit query) all_time_active
              query.start_value query.end_value)
            state keep_cursor cursor;
      all_time_active = all_time_active;
      start_value = query.start_value;
      end_value = query.end_value;
    }
