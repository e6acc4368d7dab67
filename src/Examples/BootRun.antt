-- ===== src/Examples/BootRun.antt =====
-- The functions r_boot_*, r_mark_bad and determine_boot_states on the board with GRUB.
use docker_yocto_kirkstone_n.Prelude.{
  ◌≡◌, ◌≢◌, refl, some, codes, str_eq, strip_prefix, join, if◌then◌else◌,
}
use docker_yocto_kirkstone_n.Exec.{ok, err, slot_no_booted}
use docker_yocto_kirkstone_n.Process.{communicate, wait_check}
use docker_yocto_kirkstone_n.Slot.{RaucSlot}
use docker_yocto_kirkstone_n.Boot.Env.{Env}
use docker_yocto_kirkstone_n.Boot.Grub.{
  find_variable, grub_env_get, grub_env_set, grub_slot_good, grub_slot_bootable, grub_get_state,
  grub_set_state, grub_match, grub_scan, grub_get_primary,
}
use docker_yocto_kirkstone_n.Boot.Names.{is_listed}
use docker_yocto_kirkstone_n.Boot.Dispatch.{
  backend_of, boot_get_state, boot_set_state, boot_get_primary, boot_set_primary,
}
use docker_yocto_kirkstone_n.Boot.Dispatch.Contract.{grub_tool, boot_get_primary-boot_set_primary}
use docker_yocto_kirkstone_n.Mark.State.{mark_bad, boot_get_primary-mark_bad}
use docker_yocto_kirkstone_n.Install.BootStates.{
  determine_boot_states, any_fails, refreshed_all, determine_boot_states_lem,
}
use docker_yocto_kirkstone_n.Examples.Split.{strsplit, pieces, strchomp}
use docker_yocto_kirkstone_n.Examples.Numbers.{strtoull, parse}
use docker_yocto_kirkstone_n.Examples.GlibModel.{glib, glib_laws}
use docker_yocto_kirkstone_n.Examples.GrubTool.{
  grub_tools, grub_editenv, run, cleaned, is_clean, lacks, store, split_pair,
}
use docker_yocto_kirkstone_n.Examples.EfiTool.{boot_regex}
use docker_yocto_kirkstone_n.Examples.GrubRun.{before}
use docker_yocto_kirkstone_n.Examples.Board.{
  board, board_slots, grubenv, rootfs_a, rootfs_b, b-BootName, board-BootNames, b-Owns,
}

boot_get_primary-boot_set_primary_example :
    ((boot_set_primary glib boot_regex grub_tools board rootfs_b before).0 ≡ ok tt)
    × ((boot_get_primary glib boot_regex grub_tools board
          (boot_set_primary glib boot_regex grub_tools board rootfs_b before).1).0
        ≡ ok rootfs_b)
boot_get_primary-boot_set_primary_example =
    boot_get_primary-boot_set_primary glib glib_laws boot_regex grub_tools board
      (grub_tool grubenv refl (grub_editenv grubenv) board-BootNames) rootfs_b (codes "B") before
      refl b-Owns tt

-- The environment block after B is marked bad.
abbrev b_bad : Env
b_bad = (mark_bad glib boot_regex grub_tools board rootfs_b before).1

primary_after_mark_bad :
    boot_get_primary glib boot_regex grub_tools board b_bad ≡ (ok rootfs_a, b_bad)
unfolding boot_get_primary mark_bad boot_set_state backend_of str_eq grub_get_primary grub_env_get
    communicate run find_variable strsplit pieces join grub_set_state grub_env_set wait_check
    grub_scan strchomp grub_match grub_slot_good grub_slot_bootable strtoull parse cleaned is_clean
    lacks store split_pair strip_prefix
primary_after_mark_bad = refl

boot_get_primary-mark_bad_example :
    ((mark_bad glib boot_regex grub_tools board rootfs_b before).0 ≡ ok tt)
    × ((primary : RaucSlot) (s' : Env)
        → boot_get_primary glib boot_regex grub_tools board b_bad ≡ (ok primary, s')
        → primary.bootname ≢ some (codes "B"))
boot_get_primary-mark_bad_example =
    boot_get_primary-mark_bad glib glib_laws boot_regex grub_tools board grubenv refl
      (grub_editenv grubenv) refl rootfs_b (codes "B") before refl b-BootName board-BootNames

determine_boot_states_lem_example :
    determine_boot_states glib boot_regex grub_tools board (before, board_slots) ≡ (
      if any_fails glib boot_regex grub_tools board before board_slots
          then err slot_no_booted
          else ok tt,
      (before, refreshed_all glib boot_regex grub_tools board before board_slots),
    )
unfolding boot_get_state backend_of grub_get_state grub_env_get communicate run str_eq cleaned
    is_clean lacks strsplit pieces strchomp find_variable strip_prefix join grub_slot_good
    grub_slot_bootable strtoull parse is_listed
determine_boot_states_lem_example =
    determine_boot_states_lem glib boot_regex grub_tools board board_slots before
      (tt, (refl, (refl, (tt, tt))))
