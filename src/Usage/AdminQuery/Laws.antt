-- ===== src/Usage/AdminQuery/Laws.antt =====
-- What every request of the admin usage page asks for.
use revlm.Base.{
  ℕ, ◌≡◌, refl, ◌↔◌, ◌⊎◌, Bool, true, false, ◌||◌, Option, none, some, [], ◌∷◌, arith, or_else,
  is_some, keep, Text, is_empty, trim, trim_idem,
}
use revlm.Api.{non_empty}
use revlm.Usage.AdminQuery.{
  QueryState, RefreshOverride, CursorOverride, Params, PageQuery, is_all_time_range,
  resolve_query_input, positive, build_filter_params, apply_range_params, set_cursor,
  apply_cursor_params, build_admin_usage_page_params,
}
use revlm.Usage.AdminQuery.Filters.{HasFilters, filters, range-HasFilters, cursor-HasFilters}

-- All time is on, by the override or else on the page, and both bounds are blank.
abbrev pub AsksAllTime : QueryState → RefreshOverride → Type 0
AsksAllTime state override =
    (or_else override.all_time state.all_time ≡ true)
    × (trim (or_else override.start state.start) ≡ [])
    × (trim (or_else override.end state.end) ≡ [])

-- The range of a request: all time, or the bounds that are not empty.
pub record HasRange (state : QueryState) (override : RefreshOverride) (q : PageQuery) : Type 0 where
  pub asked : (q.params.all_time ≡ some true) ↔ AsksAllTime state override
  pub start : q.start_value ≡ trim (or_else override.start state.start)
  pub end : q.end_value ≡ trim (or_else override.end state.end)
  pub active : (q.params.all_time ≡ some true) ↔ (q.all_time_active ≡ true)
  pub unbounded :
      q.all_time_active ≡ true
      → (q.params.start ≡ none) × (q.params.end ≡ none) × (q.start_value ≡ []) × (q.end_value ≡ [])
  pub bounded :
      q.all_time_active ≡ false
      → (q.params.all_time ≡ none)
        × (q.params.start ≡ non_empty q.start_value)
        × (q.params.end ≡ non_empty q.end_value)

-- The cursor of a request: none unless it is kept, and no summary is asked for exactly if there is one.
pub record HasCursor (p : Params) (keep : Bool) : Type 0 where
  pub dropped : keep ≡ false → (p.before_id ≡ none) × (p.after_id ≡ none)
  pub summary : (p.summary ≡ some false) ↔ ((is_some p.before_id || is_some p.after_id) ≡ true)
  pub whole : (p.summary ≡ none) ⊎ (p.summary ≡ some false)

module _ (p : Params) (b : p.before_id ≡ none) (a : p.after_id ≡ none) (s : p.summary ≡ none) where
  set_cursor-HasCursor : (x y : Option ℕ) → HasCursor (set_cursor p x y) true
  set_cursor-HasCursor none none = record {
    dropped = λ e. cc;
    summary = ground arith;
    whole = ground arith;
  }
  set_cursor-HasCursor (some m) none = record {
    dropped = λ e. cc;
    summary = ground arith;
    whole = ground arith;
  }
  set_cursor-HasCursor none (some n) = record {
    dropped = λ e. cc;
    summary = ground arith;
    whole = ground arith;
  }
  set_cursor-HasCursor (some m) (some n) = record {
    dropped = λ e. cc;
    summary = ground arith;
    whole = ground arith;
  }

  cursor-HasCursor :
      (state : QueryState) (keep : Bool) (cursor : CursorOverride)
      → HasCursor (apply_cursor_params p state keep cursor) keep
  unfolding apply_cursor_params
  cursor-HasCursor state true cursor =
      set_cursor-HasCursor (positive (or_else cursor.before_id state.before_id))
        (positive (or_else cursor.after_id state.after_id))
  cursor-HasCursor state false cursor = record {
    dropped = λ e. (b, a);
    summary = ground arith;
    whole = ground arith;
  }

empty_of_is_empty : (t : Text) → is_empty t ≡ true → t ≡ []
empty_of_is_empty [] h = refl
empty_of_is_empty (c ∷ t) h = cc

all_time_iff :
    (b : Bool) (s e : Text)
    → (is_all_time_range b (trim s) (trim e) ≡ true) ↔ ((b ≡ true) × (trim s ≡ []) × (trim e ≡ []))
unfolding is_all_time_range
all_time_iff true s e =
    rw (trim_idem s, trim_idem e)
      (
        λ h. (
          refl,
          empty_of_is_empty (trim s) (ground arith),
          empty_of_is_empty (trim e) (ground arith),
        ),
        λ h. rw (h.1, h.2) refl,
      )
all_time_iff false s e = (λ h. cc, λ h. cc)

active_iff :
    (p : Params) (active : Bool) (start end : Text)
    → p.all_time ≡ none
    → ((apply_range_params p active start end).all_time ≡ some true) ↔ (active ≡ true)
unfolding apply_range_params
active_iff p true start end t = (λ h. refl, λ h. refl)
active_iff p false start end t = (λ h. cc, λ h. cc)

-- A range that is not read from a cursor.
range_lem :
    (state : QueryState) (override : RefreshOverride) (p : Params) (active : Bool)
    → p.all_time ≡ none
    → p.start ≡ none
    → p.end ≡ none
    → (active ≡ true) ↔ AsksAllTime state override
    → let start = trim (or_else override.start state.start) in
      let end = trim (or_else override.end state.end) in
      HasRange state override (record {
        params = apply_range_params p active start end;
        all_time_active = active;
        start_value = start;
        end_value = end;
      })
range_lem state override p active t s e h = record {
  asked = (λ k. h.0 ((active_iff p active _ _ t).0 k), λ k. (active_iff p active _ _ t).1 (h.1 k));
  start = refl;
  end = refl;
  active = active_iff p active _ _ t;
  unbounded = λ k. unfold apply_range_params in rw k (s, e, (h.0 k).1, (h.0 k).2);
  bounded = λ k. unfold apply_range_params in rw k (t, refl, refl);
}

-- Setting the cursor leaves the range alone.
cursor-HasRange :
    (state : QueryState) (override : RefreshOverride) (q : PageQuery) (keep : Bool)
    (cursor : CursorOverride)
    → HasRange state override q
    → HasRange state override (record q { params = apply_cursor_params q.params state keep cursor })
unfolding apply_cursor_params
cursor-HasRange state override q true cursor h = record {
  asked = h.asked;
  start = h.start;
  end = h.end;
  active = h.active;
  unbounded = h.unbounded;
  bounded = h.bounded;
}
cursor-HasRange state override q false cursor h = h

range_keeps_cursor :
    (p : Params) (active : Bool) (start end : Text)
    → ((apply_range_params p active start end).before_id ≡ p.before_id)
      × ((apply_range_params p active start end).after_id ≡ p.after_id)
      × ((apply_range_params p active start end).summary ≡ p.summary)
unfolding apply_range_params
range_keeps_cursor p true start end = (refl, refl, refl)
range_keeps_cursor p false start end = (refl, refl, refl)

-- Every request, whatever the state of the page, the override and the cursor: it names a user, a
-- channel and a model exactly or by a search text and never both, and its index lists the search
-- texts; it asks for all time exactly if that is on, by the override or else on the page, and both
-- bounds are blank, and else for the trimmed bounds that are not empty; it has no cursor where none is to be kept, and leaves the summary out exactly
-- if it has a cursor.
pub build_admin_usage_page_params_lem :
    (state : QueryState) (override : RefreshOverride) (keep : Bool) (cursor : CursorOverride)
    → HasFilters (build_admin_usage_page_params state override keep cursor).params
      × HasRange state override (build_admin_usage_page_params state override keep cursor)
      × HasCursor (build_admin_usage_page_params state override keep cursor).params keep
unfolding build_admin_usage_page_params
build_admin_usage_page_params_lem state override keep cursor =
    let q = resolve_query_input state override in
    let active = is_all_time_range q.all_time_value q.start_value q.end_value in
    let base = build_filter_params state.limit q in
    let ranged = apply_range_params base active q.start_value q.end_value in
    let kept = range_keeps_cursor base active q.start_value q.end_value in
    (
      cursor-HasFilters ranged state keep cursor
          (range-HasFilters base active q.start_value q.end_value (filters state.limit q)),
      cursor-HasRange state override
          (record {
            params = ranged;
            all_time_active = active;
            start_value = q.start_value;
            end_value = q.end_value;
          })
          keep cursor
          (range_lem state override base active refl refl refl (
            all_time_iff q.all_time_value (or_else override.start state.start)
              (or_else override.end state.end))),
      cursor-HasCursor ranged kept.0 kept.1 kept.2 state keep cursor,
    )
