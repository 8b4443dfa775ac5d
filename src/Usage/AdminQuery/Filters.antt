-- ===== src/Usage/AdminQuery/Filters.antt =====
-- The filters of a request of the admin usage page.
use revlm.Base.{
  ℕ, ◌≡◌, refl, Bool, true, false, not, ◌&&◌, Option, none, some, List, [], ◌∷◌, ◌++◌,
  if◌then◌else◌, is_some, Text, codes, is_empty,
}
use revlm.Api.{non_empty}
use revlm.Usage.AdminQuery.{
  QueryState, CursorOverride, Query, Params, positive, is_set, present, is_given, join_parts,
  build_index, build_filter_params, apply_range_params, apply_cursor_params,
}

-- The names of the filters that are on.
abbrev filter_names : Bool → Bool → Bool → List Text
filter_names user channel model =
    (if user then codes "user" ∷ [] else [])
    ++ (if channel then codes "channel" ∷ [] else [])
    ++ (if model then codes "model" ∷ [] else [])

abbrev pub AtMostOne {ℓ κ} : {A : Type ℓ} {B : Type κ} → Option A → Option B → Type 0
AtMostOne none y = Unit
AtMostOne (some a) none = Unit
AtMostOne (some a) (some b) = ⊥

-- A request names a user, a channel or a model exactly or by a search text, never both; its index
-- lists the search texts that it carries.
pub record HasFilters (p : Params) : Type 0 where
  pub user : AtMostOne p.user_id p.q_user
  pub channel : AtMostOne p.channel_id p.q_channel
  pub model : AtMostOne p.model p.q_model
  pub index :
      p.index
      ≡ join_parts (filter_names (is_some p.q_user) (is_some p.q_channel) (is_some p.q_model))

exclusive {ℓ κ} :
    {A : Type ℓ} {B : Type κ} (o : Option A) (x : Option B)
    → AtMostOne o (if is_some o then none else x)
exclusive none x = tt
exclusive (some a) x = tt

search_on :
    (b : Bool) (t : Text) → is_some (if b then none else non_empty t) ≡ (not b && not (is_empty t))
search_on true t = refl
search_on false [] = refl
search_on false (c ∷ t) = refl

build_index_lem :
    (q : Query)
    → build_index q
      ≡ join_parts (
          filter_names
            (not (is_set q.q_user_id) && not (is_empty q.q_user))
            (not (is_set q.q_channel_id) && not (is_empty q.q_channel))
            (not (is_given q.q_model_exact) && not (is_empty q.q_model)))
unfolding build_index
build_index_lem q = refl

pub filters : (limit : ℕ) (q : Query) → HasFilters (build_filter_params limit q)
unfolding build_filter_params
filters limit q = record {
  user = exclusive (positive q.q_user_id) (non_empty q.q_user);
  channel = exclusive (positive q.q_channel_id) (non_empty q.q_channel);
  model = exclusive (present q.q_model_exact) (non_empty q.q_model);
  index =
      rw
        (
          search_on (is_set q.q_user_id) q.q_user,
          search_on (is_set q.q_channel_id) q.q_channel,
          search_on (is_given q.q_model_exact) q.q_model,
        )
        (build_index_lem q);
}

pub range-HasFilters :
    (p : Params) (all_time : Bool) (start end : Text)
    → HasFilters p
    → HasFilters (apply_range_params p all_time start end)
unfolding apply_range_params
range-HasFilters p true start end h = record {
  user = h.user;
  channel = h.channel;
  model = h.model;
  index = h.index;
}
range-HasFilters p false start end h = record {
  user = h.user;
  channel = h.channel;
  model = h.model;
  index = h.index;
}

pub cursor-HasFilters :
    (p : Params) (state : QueryState) (keep : Bool) (cursor : CursorOverride)
    → HasFilters p
    → HasFilters (apply_cursor_params p state keep cursor)
unfolding apply_cursor_params
cursor-HasFilters p state true cursor h = record {
  user = h.user;
  channel = h.channel;
  model = h.model;
  index = h.index;
}
cursor-HasFilters p state false cursor h = h
