-- ===== src/Tests/Lists.antt =====
-- The lists of group names at concrete inputs.
use revlm.Base.{
  Text, codes, ◌≡◌, refl, ◌∷◌, [], true, List, join, trim, text_eq, if◌then◌else◌, arith,
}
use revlm.Channels.Csv.{mem, parse_groups_csv, toggle_groups_csv, add_parts, set_add}
use revlm.Channels.Csv.Laws.{IsGroup, IsGroups, parse_groups_csv-join, mem-toggle_groups_csv}

vip-IsGroup : IsGroup (codes "vip")
unfolding trim
vip-IsGroup = record {
  some_text = λ e. cc;
  trimmed = refl;
  no_comma = (omega arith, (omega arith, (omega arith, tt)));
}

pro-IsGroup : IsGroup (codes "pro")
unfolding trim
pro-IsGroup = record {
  some_text = λ e. cc;
  trimmed = refl;
  no_comma = (omega arith, (omega arith, (omega arith, tt)));
}

abbrev names : List Text
names = codes "vip" ∷ codes "pro" ∷ []

names-IsGroups : IsGroups names
names-IsGroups = record { each = (vip-IsGroup, (pro-IsGroup, tt)); distinct = (refl, (refl, tt)) }

parse_groups_csv-join_example : parse_groups_csv (join names b',') ≡ names
parse_groups_csv-join_example = parse_groups_csv-join names names-IsGroups

mem-toggle_groups_csv_example :
    mem (codes "pro") (parse_groups_csv (toggle_groups_csv (codes "pro, x") (codes "vip") true)) ≡ (
      if text_eq (codes "vip") (codes "pro")
      then true
      else mem (codes "pro") (parse_groups_csv (codes "pro, x")))
mem-toggle_groups_csv_example =
    mem-toggle_groups_csv (codes "pro, x") (codes "vip") (codes "pro") true vip-IsGroup

parse_run : parse_groups_csv (codes " vip, pro ,vip") ≡ names
unfolding parse_groups_csv add_parts set_add trim
parse_run = refl
