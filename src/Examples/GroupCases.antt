-- ===== src/Examples/GroupCases.antt =====
-- Groups: the depth limit on the fleet.
use mdm.Base.{◌≡◌, refl, none, some}
use mdm.Base.Text.{codes}
use mdm.Schema.{dynamic}
use mdm.Groups.Routes.{
  CreateGroup, UpdateGroup, given, get_group_depth, create_group, update_group, delete_group,
}
use mdm.Groups.Depth.{IsShallow, groups-IsShallow}
use mdm.Examples.Fleet.{
  tables, tables-AreLawful, inherits_none, uuid_text, pixels, caller, fleet, finds_two,
}

abbrev phones : CreateGroup
phones = record {
  name = codes "Phones";
  description = none;
  type = dynamic;
  parent_id = some 11;
  rules = some pixels;
}

abbrev to_root : UpdateGroup
to_root = record { name = none; description = none; parent_id = given none; rules = none }

depth_below_kiosks : get_group_depth tables (some 11) fleet ≡ 2
unfolding get_group_depth
depth_below_kiosks = refl

groups-IsShallow_example :
    IsShallow tables
      (create_group tables inherits_none uuid_text finds_two phones caller 11 5 fleet).1
    × IsShallow tables
        (update_group tables inherits_none uuid_text finds_two to_root caller 11 5 fleet).1
    × IsShallow tables (delete_group tables caller 11 fleet).1
groups-IsShallow_example =
    groups-IsShallow tables tables-AreLawful inherits_none uuid_text finds_two phones to_root caller
      11 5 fleet refl
