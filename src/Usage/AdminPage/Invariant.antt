-- ===== src/Usage/AdminPage/Invariant.antt =====
-- What holds of the admin usage page at every moment.
use revlm.Base.{ℕ, zero, suc, ◌≡◌, refl, ◌∙◌, Bool, true, false, Option, none, some, or_else, Text}
use revlm.Usage.AdminQuery.{
  QueryState, Params, PageQuery, CursorOverride, positive, or_option, build_admin_usage_page_params,
  resolve_query_input, build_filter_params, apply_range_params, apply_cursor_params,
  is_all_time_range,
}
use revlm.Usage.AdminQuery.Filters.{AtMostOne}
use revlm.Usage.AdminPage.{Page, RefreshOptions, plain, request, prev_after_of, next_before_of}
use revlm.Usage.AdminPage.Handlers.{
  handle_date_range_change, handle_user_change, handle_channel_change, handle_model_change,
  handle_limit_change, handle_refresh, handle_reset, handle_prev_page, handle_next_page, to_newer,
  to_older,
}
use revlm.Usage.AdminPage.Steps.{Event, handle}

-- The page filters by search texts alone, and has at most one cursor.
pub record IsSearch (q : QueryState) : Type 0 where
  pub user : q.filter_user_id ≡ none
  pub channel : q.filter_channel_id ≡ none
  pub model : q.filter_model_exact ≡ none
  pub cursor : AtMostOne q.before_id q.after_id

-- A query names no user, channel or model exactly, and has at most one cursor.
pub record IsSearchQuery (s : PageQuery) : Type 0 where
  pub user : s.params.user_id ≡ none
  pub channel : s.params.channel_id ≡ none
  pub model : s.params.model ≡ none
  pub cursor : AtMostOne s.params.before_id s.params.after_id

cursor_positive :
    (x y : Option ℕ)
    → AtMostOne x y
    → AtMostOne (or_option (positive x) none) (or_option (positive y) none)
cursor_positive none y h = tt
cursor_positive (some zero) none h = tt
cursor_positive (some (suc n)) none h = tt
cursor_positive (some m) (some n) h = absurd h

-- The parameters that the range leaves alone.
range_rest :
    (p : Params) (active : Bool) (s e : Text)
    → ((apply_range_params p active s e).user_id ≡ p.user_id)
      × ((apply_range_params p active s e).channel_id ≡ p.channel_id)
      × ((apply_range_params p active s e).model ≡ p.model)
      × ((apply_range_params p active s e).before_id ≡ p.before_id)
      × ((apply_range_params p active s e).after_id ≡ p.after_id)
unfolding apply_range_params
range_rest p true s e = (refl, refl, refl, refl, refl)
range_rest p false s e = (refl, refl, refl, refl, refl)

cursor_lem :
    (p : Params) (q : QueryState) (keep : Bool) (c : CursorOverride)
    → p.before_id ≡ none
    → p.after_id ≡ none
    → AtMostOne (or_else c.before_id q.before_id) (or_else c.after_id q.after_id)
    → ((apply_cursor_params p q keep c).user_id ≡ p.user_id)
      × ((apply_cursor_params p q keep c).channel_id ≡ p.channel_id)
      × ((apply_cursor_params p q keep c).model ≡ p.model)
      × AtMostOne
          (apply_cursor_params p q keep c).before_id
          (apply_cursor_params p q keep c).after_id
unfolding apply_cursor_params
cursor_lem p q true c b a h = (refl, refl, refl, rw (b, a) (cursor_positive _ _ h))
cursor_lem p q false c b a h = (refl, refl, refl, rw b tt)

module _ {W U E D : Type 0} where
  pub request-IsSearchQuery :
      (p : Page W U E D) (o : RefreshOptions)
      → IsSearch p.query
      → o.override.filter_user_id ≡ none
      → o.override.filter_channel_id ≡ none
      → o.override.filter_model_exact ≡ none
      → AtMostOne
          (or_else o.cursor.before_id p.query.before_id)
          (or_else o.cursor.after_id p.query.after_id)
      → IsSearchQuery (request p o)
  unfolding request build_admin_usage_page_params build_filter_params resolve_query_input
  request-IsSearchQuery p o h u c m at_most =
      let q = resolve_query_input p.query o.override in
      let active = is_all_time_range q.all_time_value q.start_value q.end_value in
      let base = build_filter_params p.query.limit q in
      let (ru, rc, rm, rb, ra) = range_rest base active q.start_value q.end_value in
      let ranged = apply_range_params base active q.start_value q.end_value in
      let (cu, cc', cm, ca) = cursor_lem ranged p.query o.keep_cursor o.cursor rb ra at_most in
      record {
        user = cu ∙ ru ∙ rw (u, h.user);
        channel = cc' ∙ rc ∙ rw (c, h.channel);
        model = cm ∙ rm ∙ rw (m, h.model);
        cursor = ca;
      }

  abbrev pub AllOf : Option RefreshOptions → Page W U E D → Type 0
  AllOf none p = Unit
  AllOf (some o) p = IsSearchQuery (request p o)

  to_newer-IsSearch :
      (i : Option ℕ) (p : Page W U E D)
      → IsSearch p.query
      → IsSearch (to_newer i p).0.query × AllOf (to_newer i p).1 p
  to_newer-IsSearch none p h = (h, tt)
  to_newer-IsSearch (some id) p h = (
    record { user = h.user; channel = h.channel; model = h.model; cursor = tt },
    request-IsSearchQuery p _ h refl refl refl tt,
  )

  to_older-IsSearch :
      (i : Option ℕ) (p : Page W U E D)
      → IsSearch p.query
      → IsSearch (to_older i p).0.query × AllOf (to_older i p).1 p
  to_older-IsSearch none p h = (h, tt)
  to_older-IsSearch (some id) p h = (
    record { user = h.user; channel = h.channel; model = h.model; cursor = tt },
    request-IsSearchQuery p _ h refl refl refl tt,
  )

  pub handle-IsSearch :
      (e : Event) (p : Page W U E D)
      → IsSearch p.query
      → IsSearch (handle e p).0.query × AllOf (handle e p).1 p
  unfolding handle handle_date_range_change handle_user_change handle_channel_change
      handle_model_change handle_limit_change handle_refresh handle_reset handle_prev_page
      handle_next_page
  handle-IsSearch (Event.date_range s e) p h =
      (record { user = h.user; channel = h.channel; model = h.model; cursor = tt }, tt)
  handle-IsSearch (Event.user v) p h =
      (record { user = refl; channel = h.channel; model = h.model; cursor = tt }, tt)
  handle-IsSearch (Event.channel v) p h =
      (record { user = h.user; channel = refl; model = h.model; cursor = tt }, tt)
  handle-IsSearch (Event.model v) p h =
      (record { user = h.user; channel = h.channel; model = refl; cursor = tt }, tt)
  handle-IsSearch (Event.limit n) p h =
      (record { user = h.user; channel = h.channel; model = h.model; cursor = h.cursor }, tt)
  handle-IsSearch Event.refresh p h = (
    record { user = h.user; channel = h.channel; model = h.model; cursor = tt },
    request-IsSearchQuery p plain h refl refl refl h.cursor,
  )
  handle-IsSearch Event.reset p h = (
    record { user = refl; channel = refl; model = refl; cursor = tt },
    request-IsSearchQuery p _ h refl refl refl tt,
  )
  handle-IsSearch Event.prev_page p h = to_newer-IsSearch (prev_after_of p.found) p h
  handle-IsSearch Event.next_page p h = to_older-IsSearch (next_before_of p.found) p h
