-- ===== src/Usage/AdminPage/Laws.antt =====
-- What the admin usage page asks the server for.
use revlm.Base.{◌≡◌, Option, none, some, arith, trim}
use revlm.Usage.AdminQuery.{Params, positive, present, build_admin_usage_page_params, build_index}
use revlm.Usage.AdminPage.{Page, RefreshOptions, request}
use revlm.Usage.AdminPage.Handlers.{handle_reset}

-- The request that a reset sends.
module _ {W U E D : Type 0} where
  abbrev pub params_sent : Page W U E D → Option RefreshOptions → Option Params
  params_sent p none = none
  params_sent p (some o) = some (request p o).params

  -- A reset asks for the first page of the default range, with no search text; but the exact filters
  -- for a user, a channel and a model are those that the page had before.
  pub handle_reset_request :
      (p : Page W U E D)
      → params_sent p (handle_reset p).1
        ≡ some (record {
          start = none;
          end = none;
          all_time = none;
          limit = p.query.limit;
          before_id = none;
          after_id = none;
          summary = none;
          user_id = positive p.query.filter_user_id;
          channel_id = positive p.query.filter_channel_id;
          model = present p.query.filter_model_exact;
          index = none;
          q_user = none;
          q_channel = none;
          q_model = none;
        })
  unfolding handle_reset request build_admin_usage_page_params build_index trim
  handle_reset_request p = ground arith
