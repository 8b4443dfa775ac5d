-- ===== src/Groups/Order.antt =====
-- The order of the members of a channel group: the buttons that move one up or down in
-- frontend/src/pages/admin/ChannelGroupsPage.tsx. They are off where there is nothing to swap with.
pub mod Laws
use revlm.Base.{ℕ, zero, suc, ◌-◌, ◌+◌, List, [], ◌∷◌, map}
use revlm.Api.ChannelGroups.{AdminChannelGroupMember}

-- `ids[i]`, where there is one.
unfoldable pub get_at : ℕ → List ℕ → ℕ
get_at i [] = 0
get_at zero (x ∷ xs) = x
get_at (suc i) (x ∷ xs) = get_at i xs

-- `ids[i] = v`, where there is a place.
unfoldable pub set_at : ℕ → ℕ → List ℕ → List ℕ
set_at i v [] = []
set_at zero v (x ∷ xs) = v ∷ xs
set_at (suc i) v (x ∷ xs) = x ∷ set_at i v xs

-- `[ids[i], ids[j]] = [ids[j], ids[i]]`
unfoldable pub swap : ℕ → ℕ → List ℕ → List ℕ
unfolding get_at set_at
swap i j ids = set_at j (get_at i ids) (set_at i (get_at j ids) ids)

abbrev pub member_ids : List AdminChannelGroupMember → List ℕ
member_ids members = map (λ (m : AdminChannelGroupMember). m.member_id) members

unfoldable pub move_up : ℕ → List AdminChannelGroupMember → List ℕ
unfolding swap
move_up index members = swap (index - 1) index (member_ids members)

unfoldable pub move_down : ℕ → List AdminChannelGroupMember → List ℕ
unfolding swap
move_down index members = swap index (index + 1) (member_ids members)
