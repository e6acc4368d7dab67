-- ===== src/Examples/MarkRun.antt =====
-- Slot identifiers on the board.
use docker_yocto_kirkstone_n.Prelude.{◌≡◌, refl, List, map, codes, str_eq, find_first, In}
use docker_yocto_kirkstone_n.Exec.{ok}
use docker_yocto_kirkstone_n.Slot.{RaucSlot, inactive, get_booted, same}
use docker_yocto_kirkstone_n.Mark.{get_slot_by_identifier, is_other_bootable}
use docker_yocto_kirkstone_n.Mark.Named.{Means, get_slot_by_identifier_sound}
use docker_yocto_kirkstone_n.Install.States.{set_state, state_beside}
use docker_yocto_kirkstone_n.Examples.GlibModel.{glib}
use docker_yocto_kirkstone_n.Examples.Board.{board_slots, rootfs_a, rootfs_b}

abbrev running : List RaucSlot
running = map (λ s. set_state s (state_beside rootfs_a s)) board_slots

other_of_a : get_slot_by_identifier glib running (codes "other") ≡ ok (set_state rootfs_b inactive)
unfolding get_slot_by_identifier is_other_bootable get_booted find_first same str_eq
other_of_a = refl

get_slot_by_identifier_sound_example :
    In (set_state rootfs_b inactive) running
    × Means running (codes "other") (set_state rootfs_b inactive)
unfolding same str_eq
get_slot_by_identifier_sound_example =
    get_slot_by_identifier_sound glib running (codes "other") (set_state rootfs_b inactive)
      other_of_a
