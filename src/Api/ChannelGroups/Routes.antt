-- ===== src/Api/ChannelGroups/Routes.antt =====
-- The routes of the calls on channel groups, read back from method and path.
use revlm.Base.{
  ℕ, ◌≡◌, refl, ◌∙◌, Bool, ◌&&◌, Option, none, some, List, [], ◌∷◌, if◌then◌else◌, Text, codes,
  text_eq, value, to_text,
}
use revlm.Api.Http.{Method, get, post, put, delete, Request}
use revlm.Api.Paths.{Piece, word, id, route_of, route_of-path, numbered}
use revlm.Api.ChannelGroups.{
  GroupFields, list_admin_channel_groups, create_admin_channel_group,
  get_admin_channel_group_detail, get_admin_channel_group_pointer,
  upsert_admin_channel_group_pointer, update_admin_channel_group, delete_admin_channel_group,
  set_admin_default_channel_group, add_admin_channel_group_channel_member,
  delete_admin_channel_group_channel_member, reorder_admin_channel_group_members,
}

-- What a request is about, without its body.
pub data GroupRoute : Type 0 where
  listing creation : GroupRoute
  detail pointer new_pointer update deletion default_choice new_member order : ℕ → GroupRoute
  member_deletion : ℕ → ℕ → GroupRoute

abbrev group_action : Method → ℕ → Text → Option GroupRoute
group_action get n a =
    if text_eq a (codes "detail")
    then some (detail n)
    else if text_eq a (codes "pointer")
    then some (pointer n)
    else none
group_action put n a =
    if text_eq a (codes "pointer")
    then some (new_pointer n)
    else if text_eq a (codes "default")
    then some (default_choice n)
    else none
group_action m n a = none

abbrev group_children : ℕ → Text → Option GroupRoute
group_children n a =
    if text_eq a (codes "channels")
    then some (new_member n)
    else if text_eq a (codes "reorder")
    then some (order n)
    else none

abbrev group_path : Method → List Text → Option GroupRoute
group_path get [] = some listing
group_path post [] = some creation
group_path put (t ∷ []) = some (update (value t))
group_path delete (t ∷ []) = some (deletion (value t))
group_path m (t ∷ a ∷ []) = group_action m (value t) a
group_path post (t ∷ c ∷ a ∷ []) =
    if text_eq c (codes "children") then group_children (value t) a else none
group_path delete (t ∷ c ∷ a ∷ u ∷ []) =
    if text_eq c (codes "children") && text_eq a (codes "channels")
    then some (member_deletion (value t) (value u))
    else none
group_path _ _ = none

abbrev root : List Text
root = [] ∷ codes "api" ∷ codes "admin" ∷ codes "channel-groups" ∷ []

unfoldable pub group_route : Request → Option GroupRoute
group_route r = route_of root group_path r

abbrev pieces : List Piece → List Piece
pieces ps = word "api" ∷ word "admin" ∷ word "channel-groups" ∷ ps

-- Every call on channel groups has its own method and path, from which the call and its identifiers
-- are read back.
pub group_route_lem :
    (n m : ℕ) (req : GroupFields) (pinned : Option Bool) (ids : List ℕ)
    → (group_route list_admin_channel_groups ≡ some listing)
      × (group_route (create_admin_channel_group req) ≡ some creation)
      × (group_route (get_admin_channel_group_detail n) ≡ some (detail n))
      × (group_route (get_admin_channel_group_pointer n) ≡ some (pointer n))
      × (group_route (upsert_admin_channel_group_pointer n m pinned) ≡ some (new_pointer n))
      × (group_route (update_admin_channel_group n req) ≡ some (update n))
      × (group_route (delete_admin_channel_group n) ≡ some (deletion n))
      × (group_route (set_admin_default_channel_group n) ≡ some (default_choice n))
      × (group_route (add_admin_channel_group_channel_member n m) ≡ some (new_member n))
      × (group_route (delete_admin_channel_group_channel_member n m) ≡ some (member_deletion n m))
      × (group_route (reorder_admin_channel_group_members n ids) ≡ some (order n))
unfolding group_route list_admin_channel_groups create_admin_channel_group
    get_admin_channel_group_detail get_admin_channel_group_pointer
    upsert_admin_channel_group_pointer update_admin_channel_group delete_admin_channel_group
    set_admin_default_channel_group add_admin_channel_group_channel_member
    delete_admin_channel_group_channel_member reorder_admin_channel_group_members
group_route_lem n m req pinned ids = (
  refl,
  refl,
  route_of-path root group_path get (pieces (id n ∷ word "detail" ∷ [])) refl ∙ numbered detail n,
  route_of-path root group_path get (pieces (id n ∷ word "pointer" ∷ [])) refl ∙ numbered pointer n,
  route_of-path root group_path put (pieces (id n ∷ word "pointer" ∷ [])) refl
      ∙ numbered new_pointer n,
  route_of-path root group_path put (pieces (id n ∷ [])) refl ∙ numbered update n,
  route_of-path root group_path delete (pieces (id n ∷ [])) refl ∙ numbered deletion n,
  route_of-path root group_path put (pieces (id n ∷ word "default" ∷ [])) refl
      ∙ numbered default_choice n,
  route_of-path root group_path post (pieces (id n ∷ word "children" ∷ word "channels" ∷ [])) refl
      ∙ numbered new_member n,
  route_of-path root group_path delete
        (pieces (id n ∷ word "children" ∷ word "channels" ∷ id m ∷ [])) refl
      ∙ numbered (λ k. member_deletion k (value (to_text m))) n
      ∙ numbered (member_deletion n) m,
  route_of-path root group_path post (pieces (id n ∷ word "children" ∷ word "reorder" ∷ [])) refl
      ∙ numbered order n,
)
