-- ===== src/Groups/Selection.antt =====
-- The channel group that the address of frontend/src/pages/admin/ChannelGroupsPage.tsx chooses.
use revlm.Base.{
  ℕ, ◌≡◌, ◌≢◌, refl, ap, ◌∙◌, ℤ, pos, negsuc, none, some, Text, codes, trim, to_text, All-to_text,
  [], parse_int, int_text, parse_int-int_text, trim_of_NoSpace, digits-NoSpace,
}
use revlm.Widgets.Selection.{SearchParams, selection, set_selection}
use revlm.Widgets.Selection.Laws.{selection-set_selection}

abbrev group_param : Text
group_param = codes "group"

abbrev positive_or_zero : ℤ → ℕ
positive_or_zero (pos n) = n
positive_or_zero (negsuc n) = 0

-- `selectedID`; no number is 0.
unfoldable pub selected_id : SearchParams → ℕ
unfolding selection
selected_id ps = positive_or_zero (parse_int (selection group_param ps))

-- The button of a group, and what follows the creation of one.
unfoldable pub select_group : ℕ → SearchParams → SearchParams
unfolding set_selection
select_group id ps = set_selection group_param (some (to_text id)) ps

-- The modal is hidden, or its group deleted.
unfoldable pub select_none : SearchParams → SearchParams
unfolding set_selection
select_none ps = set_selection group_param none ps

trim-to_text : (n : ℕ) → trim (to_text n) ≡ to_text n
trim-to_text n = trim_of_NoSpace (to_text n) (digits-NoSpace (to_text n) (All-to_text n))

parse_int-to_text : (n : ℕ) → parse_int (to_text n) ≡ pos n
unfolding int_text
parse_int-to_text n = parse_int-int_text (pos n)

nothing_chosen : (t : Text) → t ≡ trim [] → positive_or_zero (parse_int t) ≡ 0
unfolding trim parse_int
nothing_chosen t e = rw e refl

-- Choosing a group makes it the chosen one, hiding the modal leaves none, and neither touches another
-- parameter of the address.
pub selected_id-select_group :
    (id : ℕ) (ps : SearchParams)
    → (selected_id (select_group id ps) ≡ id)
      × (selected_id (select_none (select_group id ps)) ≡ 0)
      × ((other : Text)
          → other ≢ group_param
          → selection other (select_none (select_group id ps)) ≡ selection other ps)
unfolding selected_id select_group select_none
selected_id-select_group id ps =
    let chosen = selection-set_selection group_param (some (to_text id)) ps in
    let closed =
      selection-set_selection group_param none (set_selection group_param (some (to_text id)) ps) in
    (
      ap (λ t. positive_or_zero (parse_int t)) (chosen.0 ∙ trim-to_text id)
          ∙ ap positive_or_zero (parse_int-to_text id),
      nothing_chosen _ closed.0,
      λ other n. closed.1 other n ∙ chosen.1 other n,
    )
