-- ===== src/Examples/InstallRun.antt =====
-- Slot states and target groups on the board.
use docker_yocto_kirkstone_n.Prelude.{
  ◌↔◌, ◌≡◌, refl, sym, ap, true, false, List, [], ◌∷◌, map, Option, none, some, Str, codes, str_eq,
  find_first, In, inl, inr,
}
use mathlib.Core.Path.{subst}
use docker_yocto_kirkstone_n.Exec.{ok}
use docker_yocto_kirkstone_n.Slot.{
  RaucSlot, inactive, booted, lookup, same, climb, get_parent_root, get_root_classes, list_contains,
  collect_class, collect_classes, remove_fast, split_last,
}
use docker_yocto_kirkstone_n.Slot.Roots.{IsRootOf, get_root_classes_iff}
use docker_yocto_kirkstone_n.Install.States.{
  SlotTable, set_state, state_beside, is_bootslot, find_bootslot, with_states,
  determine_slot_states,
}
use docker_yocto_kirkstone_n.Install.Target.{
  insert, select_inactive_slot_class_member, selected_root_slots, add_targets,
  determine_target_install_group,
}
use docker_yocto_kirkstone_n.Install.Safety.{WellKeyed, targets-inactive}
use docker_yocto_kirkstone_n.Examples.Board.{board_slots, rootfs_a, rootfs_b, app_a, app_b}

abbrev no_links : Str → Option Str
no_links device = none

abbrev loaded : SlotTable
loaded = record { slots = some board_slots; slot_states_determined = false }

-- The slots when A runs.
abbrev running : List RaucSlot
running = map (λ s. set_state s (state_beside rootfs_a s)) board_slots

board_states :
    determine_slot_states no_links (some (codes "A")) loaded
    ≡ (ok tt, record { slots = some running; slot_states_determined = true })
unfolding determine_slot_states with_states find_bootslot find_first is_bootslot str_eq same
board_states = refl

board_targets :
    determine_target_install_group running
    ≡ (codes "rootfs", set_state rootfs_b inactive) ∷ (codes "app", set_state app_b inactive) ∷ []
unfolding determine_target_install_group add_targets insert selected_root_slots
    select_inactive_slot_class_member get_root_classes collect_classes collect_class remove_fast
    split_last get_parent_root climb lookup list_contains find_first str_eq same
board_targets = refl

board-WellKeyed : WellKeyed board_slots
unfolding lookup find_first str_eq
board-WellKeyed s (inl e) = subst (λ x. lookup board_slots x.name ≡ some x) e refl
board-WellKeyed s (inr (inl e)) = subst (λ x. lookup board_slots x.name ≡ some x) e refl
board-WellKeyed s (inr (inr (inl e))) = subst (λ x. lookup board_slots x.name ≡ some x) e refl
board-WellKeyed s (inr (inr (inr (inl e)))) = subst (λ x. lookup board_slots x.name ≡ some x) e refl
board-WellKeyed s (inr (inr (inr (inr e)))) = absurd e

board_booted_root :
    (b : RaucSlot) → find_bootslot no_links (codes "A") board_slots ≡ some b → b.parent ≡ none
unfolding find_bootslot find_first is_bootslot str_eq
board_booted_root b e = ap (λ x. x.parent) (sym (the_slot e))
  where
    the_slot : some rootfs_a ≡ some b → rootfs_a ≡ b
    the_slot h = cc

targets-inactive_example : (set_state rootfs_b inactive).state ≡ inactive
targets-inactive_example =
    targets-inactive no_links (codes "A") board_slots false
      (record { slots = some running; slot_states_determined = true }) running
      (codes "rootfs", set_state rootfs_b inactive) board-WellKeyed board_booted_root board_states
      refl
      (subst (λ g. In (codes "rootfs", set_state rootfs_b inactive) g) (sym board_targets)
        (inl refl))

-- Where A's application partition is what was booted, A itself stays inactive, and the booted slot
-- is a target.
booted_child : determine_slot_states no_links (some (codes "/dev/sda4")) loaded ≡ (
  ok tt,
  record {
    slots = some (map (λ s. set_state s (state_beside app_a s)) board_slots);
    slot_states_determined = true;
  },
)
unfolding determine_slot_states with_states find_bootslot find_first is_bootslot str_eq same
booted_child = refl

booted_child_target :
    determine_target_install_group (map (λ s. set_state s (state_beside app_a s)) board_slots)
    ≡ (codes "app", set_state app_a booted) ∷ (codes "rootfs", set_state rootfs_a inactive) ∷ []
unfolding determine_target_install_group add_targets insert selected_root_slots
    select_inactive_slot_class_member get_root_classes collect_classes collect_class remove_fast
    split_last get_parent_root climb lookup list_contains find_first str_eq same
booted_child_target = refl

get_root_classes_iff_example :
    (In (codes "rootfs") (get_root_classes board_slots))
    ↔ ((s : RaucSlot) × In s board_slots × IsRootOf (codes "rootfs") s)
get_root_classes_iff_example = get_root_classes_iff board_slots (codes "rootfs")
