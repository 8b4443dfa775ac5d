-- ===== src/Api/Channels/Routes.antt =====
-- The routes of the calls on channels, read back from method and path.
use revlm.Base.{
  ℕ, ◌≡◌, refl, ◌∙◌, Option, none, some, List, [], ◌∷◌, if◌then◌else◌, Text, codes, text_eq, value,
}
use revlm.Api.Http.{Method, get, post, put, delete, Request}
use revlm.Api.Paths.{Piece, word, id, route_of, route_of-path, numbered}
use revlm.Api.Channels.{
  Range, Granularity, CreateChannelRequest, UpdateChannelRequest, get_channels_page,
  get_channel_time_series, create_channel, update_channel, delete_channel,
}

-- What a request is about, without its parameters and its body.
pub data ChannelRoute : Type 0 where
  page creation update : ChannelRoute
  time_series deletion : ℕ → ChannelRoute

abbrev channel_path : Method → List Text → Option ChannelRoute
channel_path post [] = some creation
channel_path put [] = some update
channel_path get (a ∷ []) = if text_eq a (codes "page") then some page else none
channel_path delete (t ∷ []) = some (deletion (value t))
channel_path get (t ∷ a ∷ []) =
    if text_eq a (codes "timeseries") then some (time_series (value t)) else none
channel_path _ _ = none

abbrev root : List Text
root = [] ∷ codes "api" ∷ codes "channel" ∷ []

unfoldable pub channel_route : Request → Option ChannelRoute
channel_route r = route_of root channel_path r

abbrev pieces : List Piece → List Piece
pieces ps = word "api" ∷ word "channel" ∷ ps

-- Every call on channels has its own method and path, from which the call and its identifier, where
-- the path has it, are read back.
pub channel_route_lem :
    (n : ℕ) (range : Range) (optional : Option Range) (g : Option Granularity)
    (new : CreateChannelRequest) (req : UpdateChannelRequest)
    → (channel_route (get_channels_page optional) ≡ some page)
      × (channel_route (get_channel_time_series n range g) ≡ some (time_series n))
      × (channel_route (create_channel new) ≡ some creation)
      × (channel_route (update_channel req) ≡ some update)
      × (channel_route (delete_channel n) ≡ some (deletion n))
unfolding channel_route get_channels_page get_channel_time_series create_channel update_channel
    delete_channel
channel_route_lem n range optional g new req = (
  refl,
  route_of-path root channel_path get (pieces (id n ∷ word "timeseries" ∷ [])) refl
      ∙ numbered time_series n,
  refl,
  refl,
  route_of-path root channel_path delete (pieces (id n ∷ [])) refl ∙ numbered deletion n,
)
