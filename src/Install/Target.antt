-- ===== src/Install/Target.antt =====
-- determine_target_install_group: the slots that an installation may write to.
use docker_yocto_kirkstone_n.Prelude.{
  Bool, false, ◌&&◌, List, [], ◌∷◌, Option, none, some, Str, str_eq, find_first, if◌then◌else◌,
}
use docker_yocto_kirkstone_n.Slot.{
  RaucSlot, is_inactive, get_root_classes, get_parent_root, list_contains,
}

-- A hash table from slot classes to slots, its entries in the order of their insertion.
abbrev pub TargetGroup : Type 0
TargetGroup = List (Str × RaucSlot)

-- g_hash_table_insert: the new value takes the place of an old one.
unfoldable pub insert : Str → RaucSlot → TargetGroup → TargetGroup
insert key slot [] = (key, slot) ∷ []
insert key slot ((k, s) ∷ group) =
    let rest = insert key slot group in if str_eq k key then (k, slot) ∷ group else (k, s) ∷ rest

abbrev pub is_candidate : Str → RaucSlot → Bool
is_candidate rootclass s = is_inactive s.state && str_eq s.sclass rootclass

unfoldable pub select_inactive_slot_class_member : List RaucSlot → Str → Option RaucSlot
select_inactive_slot_class_member slots rootclass = find_first (is_candidate rootclass) slots

abbrev pub append_selected : Option RaucSlot → List RaucSlot → List RaucSlot
append_selected none selected = selected
append_selected (some s) selected = s ∷ selected

-- The loop over the root classes.
unfoldable pub selected_root_slots : List RaucSlot → List Str → List RaucSlot
selected_root_slots slots [] = []
selected_root_slots slots (c ∷ rootclasses) =
    append_selected (select_inactive_slot_class_member slots c)
      (selected_root_slots slots rootclasses)

abbrev pub is_selected : List RaucSlot → Option RaucSlot → Bool
is_selected selected none = false
is_selected selected (some root) = list_contains selected root

-- The loop over the slots.
unfoldable pub add_targets :
    List RaucSlot → List RaucSlot → TargetGroup → List RaucSlot → TargetGroup
add_targets slots selected targetgroup [] = targetgroup
add_targets slots selected targetgroup (s ∷ rest) =
    add_targets slots selected
      (if is_selected selected (get_parent_root slots s)
        then insert s.sclass s targetgroup
        else targetgroup)
      rest

unfoldable pub determine_target_install_group : List RaucSlot → TargetGroup
determine_target_install_group slots =
    add_targets slots (selected_root_slots slots (get_root_classes slots)) [] slots
