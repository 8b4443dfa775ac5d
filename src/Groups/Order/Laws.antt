-- ===== src/Groups/Order/Laws.antt =====
-- What moving a member up or down makes of the order.
use revlm.Base.{ℕ, zero, suc, ◌-◌, ◌+◌, ◌≡◌, ◌<◌, List, [], ◌∷◌, ◌++◌, length, arith, refl, ap}
use revlm.Api.ChannelGroups.{AdminChannelGroupMember}
use revlm.Groups.Order.{get_at, set_at, swap, member_ids, move_up, move_down}

-- Two neighbours of a list have changed places, behind the first `i` elements.
pub record Swapped (i : ℕ) (xs ys : List ℕ) : Type 0 where
  pub front : List ℕ
  pub left : ℕ
  pub right : ℕ
  pub back : List ℕ
  pub before : xs ≡ front ++ left ∷ right ∷ back
  pub after : ys ≡ front ++ right ∷ left ∷ back
  pub place : length front ≡ i

swap-cons : (i x : ℕ) (xs : List ℕ) → swap (suc i) (suc i + 1) (x ∷ xs) ≡ x ∷ swap i (i + 1) xs
unfolding swap get_at set_at
swap-cons i x xs = let e : suc i + 1 ≡ suc (i + 1) = omega arith in rw e refl

Swapped-cons : (i x : ℕ) (xs ys : List ℕ) → Swapped i xs ys → Swapped (suc i) (x ∷ xs) (x ∷ ys)
Swapped-cons i x xs ys s = record {
  front = x ∷ s.front;
  left = s.left;
  right = s.right;
  back = s.back;
  before = ap (◌∷◌ x) s.before;
  after = ap (◌∷◌ x) s.after;
  place = ap suc s.place;
}

swap-Swapped : (i : ℕ) (xs : List ℕ) → i + 1 < length xs → Swapped i xs (swap i (i + 1) xs)
swap-Swapped i [] h = absurd (omega arith)
swap-Swapped i (x ∷ []) h = absurd (omega arith)
swap-Swapped zero (x ∷ y ∷ xs) h =
    unfold swap get_at set_at in
    record { front = []; left = x; right = y; back = xs; before = refl; after = refl; place = refl }
swap-Swapped (suc i) (x ∷ y ∷ xs) h =
    rw (swap-cons i x (y ∷ xs))
      (Swapped-cons i x (y ∷ xs) (swap i (i + 1) (y ∷ xs)) (swap-Swapped i (y ∷ xs) (omega arith)))

length-map : (ms : List AdminChannelGroupMember) → length (member_ids ms) ≡ length ms
length-map [] = refl
length-map (m ∷ ms) = ap suc (length-map ms)

-- A member that is not the last one and is moved down changes places with the one behind it, and
-- nothing else moves; moving that one up makes the same order.
pub move_down-Swapped :
    (index : ℕ) (members : List AdminChannelGroupMember)
    → index + 1 < length members
    → Swapped index (member_ids members) (move_down index members)
      × (move_up (index + 1) members ≡ move_down index members)
unfolding move_down move_up
move_down-Swapped index members h =
    let same : index + 1 - 1 ≡ index = omega arith in
    (swap-Swapped index (member_ids members) (omega (arith, length-map members)), rw same refl)
