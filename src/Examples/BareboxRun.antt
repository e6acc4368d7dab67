-- ===== src/Examples/BareboxRun.antt =====
-- The barebox backend run on the board's variables.
use docker_yocto_kirkstone_n.Prelude.{
  ℕ, ◌≡◌, refl, [], ◌∷◌, inl, inr, some, All, ◌⊎◌, codes, false, ◌&&◌, arith, In, str_eq, ltb,
}
use docker_yocto_kirkstone_n.Prelude.Digits.{print_dec, print, digits}
use docker_yocto_kirkstone_n.Exec.{ok, err, bootchooser_parse_failed}
use docker_yocto_kirkstone_n.Slot.{RaucSlot}
use docker_yocto_kirkstone_n.Boot.Barebox.{
  priority_var, attempts_var, barebox_state_get, barebox_scan, barebox_get_primary,
  barebox_get_state, barebox_set_state,
}
use docker_yocto_kirkstone_n.Boot.Barebox.Highest.{
  Stands, Below, KnownSlot, barebox_get_primary_highest,
}
use docker_yocto_kirkstone_n.Boot.Barebox.Tool.{Defined}
use docker_yocto_kirkstone_n.Boot.Barebox.State.{barebox_get_state-barebox_set_state}
use docker_yocto_kirkstone_n.Examples.Split.{data_lines, pieces}
use docker_yocto_kirkstone_n.Examples.Numbers.{strtoull_checked, parse}
use docker_yocto_kirkstone_n.Examples.GlibModel.{glib, glib_laws}
use docker_yocto_kirkstone_n.Examples.BareboxTool.{
  barebox_tools, barebox_state, Vars, run, number_of,
}
use docker_yocto_kirkstone_n.Examples.Board.{board, board_slots, rootfs_b, b-BootName}

-- B has the higher priority.
abbrev before : Vars
before =
    (priority_var (codes "A"), 10)
    ∷ (attempts_var (codes "A"), 3)
    ∷ (priority_var (codes "B"), 20)
    ∷ (attempts_var (codes "B"), 1)
    ∷ []

primary_before : barebox_get_primary glib barebox_tools board before ≡ (ok rootfs_b, before)
unfolding barebox_get_primary barebox_scan barebox_state_get run number_of str_eq data_lines pieces
    print_dec print digits strtoull_checked parse
primary_before = refl

a-Defined : Defined glib glib_laws barebox_tools board barebox_state (some (codes "A"))
unfolding barebox_state
a-Defined = (inl refl, inr (inl refl))

b-Defined : Defined glib glib_laws barebox_tools board barebox_state (some (codes "B"))
unfolding barebox_state
b-Defined = (inr (inr (inl refl)), inr (inr (inr (inl refl))))

board_defined : All (KnownSlot glib glib_laws barebox_tools board barebox_state before) board_slots
board_defined = (tt, (a-Defined, (b-Defined, (tt, tt))))

barebox_get_primary_highest_example :
    ((slot : RaucSlot) × (top : ℕ) × (barebox_get_primary glib barebox_tools board before
        ≡ (ok slot, before))
      × In slot board_slots
      × Stands glib glib_laws barebox_tools board barebox_state before top slot
      × ((t : RaucSlot)
          → In t board_slots
          → Below glib glib_laws barebox_tools board barebox_state before top t))
    ⊎ ((barebox_get_primary glib barebox_tools board before
          ≡ (err bootchooser_parse_failed, before))
        × ((t : RaucSlot)
            → In t board_slots
            → Below glib glib_laws barebox_tools board barebox_state before 0 t))
barebox_get_primary_highest_example =
    barebox_get_primary_highest glib glib_laws barebox_tools board barebox_state before
      board_defined

barebox_get_state-barebox_set_state_example :
    ((barebox_set_state glib barebox_tools board rootfs_b false before).0 ≡ ok tt)
    × ((barebox_get_state glib barebox_tools board rootfs_b
          (barebox_set_state glib barebox_tools board rootfs_b false before).1).0
        ≡ ok (false && ltb 0 (barebox_state.value before (priority_var (codes "B")))))
barebox_get_state-barebox_set_state_example =
    barebox_get_state-barebox_set_state glib glib_laws barebox_tools board barebox_state rootfs_b
      (codes "B") false before b-BootName.no_equals (omega arith) refl b-Defined
