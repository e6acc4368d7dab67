-- ===== src/Examples/UbootRun.antt =====
-- The U-Boot backend run on the board's environment.
use docker_yocto_kirkstone_n.Prelude.{
  ◌≡◌, refl, [], ◌∷◌, some, codes, true, false, arith, str_eq, keep, join,
}
use docker_yocto_kirkstone_n.Exec.{ok}
use docker_yocto_kirkstone_n.Glib.{space}
use docker_yocto_kirkstone_n.Process.{communicate}
use docker_yocto_kirkstone_n.Boot.Names.{is_listed}
use docker_yocto_kirkstone_n.Boot.Env.{Env, lookup_env}
use docker_yocto_kirkstone_n.Boot.Uboot.{
  behind, others_of, uboot_env_get, uboot_attempts_left, uboot_get_state, uboot_set_state,
  uboot_match, uboot_scan, uboot_get_primary, uboot_set_primary,
}
use docker_yocto_kirkstone_n.Boot.Uboot.State.{
  Without, uboot_get_state-uboot_set_state_bad, uboot_get_state-uboot_set_state_good,
}
use docker_yocto_kirkstone_n.Boot.Uboot.Primary.{uboot_get_primary-uboot_set_primary}
use docker_yocto_kirkstone_n.Examples.Split.{strsplit, pieces, strchomp}
use docker_yocto_kirkstone_n.Examples.Numbers.{strtoull, parse}
use docker_yocto_kirkstone_n.Examples.GlibModel.{glib, glib_laws}
use docker_yocto_kirkstone_n.Examples.FwTool.{fw_tools, fw_env, run}
use docker_yocto_kirkstone_n.Examples.Board.{board, rootfs_b, a-BootName, b-BootName, b-Owns}

-- A has no attempts left.
abbrev before : Env
before =
    (codes "BOOT_ORDER", codes "A B")
    ∷ (codes "BOOT_A_LEFT", codes "0")
    ∷ (codes "BOOT_B_LEFT", codes "2")
    ∷ []

primary_before : uboot_get_primary glib fw_tools board before ≡ (ok rootfs_b, before)
unfolding uboot_get_primary uboot_env_get communicate run lookup_env str_eq behind strsplit pieces
    strchomp uboot_scan uboot_match uboot_attempts_left strtoull parse
primary_before = refl

-- The order that is left when B is marked bad.
rest_before :
    others_of (some (codes "B")) (glib.strsplit (glib.strchomp (codes "A B")) space)
    ≡ codes "A" ∷ []
unfolding others_of keep str_eq strsplit pieces strchomp
rest_before = refl

uboot_get_state-uboot_set_state_bad_example :
    ((uboot_set_state glib fw_tools board rootfs_b false before).0 ≡ ok tt)
    × (fw_env.env (uboot_set_state glib fw_tools board rootfs_b false before).1 (codes "BOOT_ORDER")
        ≡ some (join (codes "A" ∷ []) space))
    × Without (codes "B") (glib.strsplit (glib.strchomp (codes "A B")) space) (codes "A" ∷ [])
    × ((uboot_get_state glib fw_tools board rootfs_b
          (uboot_set_state glib fw_tools board rootfs_b false before).1).0
        ≡ ok false)
unfolding fw_env lookup_env str_eq
uboot_get_state-uboot_set_state_bad_example =
    uboot_get_state-uboot_set_state_bad glib glib_laws fw_tools board fw_env rootfs_b (codes "B")
      (codes "A B") (codes "A") [] before refl (omega arith) refl rest_before (a-BootName, tt)

uboot_get_state-uboot_set_state_good_example :
    ((uboot_set_state glib fw_tools board rootfs_b true before).0 ≡ ok tt)
    × ((uboot_get_state glib fw_tools board rootfs_b
          (uboot_set_state glib fw_tools board rootfs_b true before).1).0
        ≡ ok (is_listed (glib.strsplit (glib.strchomp (codes "A B")) space) (codes "B")))
unfolding fw_env lookup_env str_eq
uboot_get_state-uboot_set_state_good_example =
    uboot_get_state-uboot_set_state_good glib glib_laws fw_tools board fw_env rootfs_b (codes "B")
      (codes "A B") before (omega arith) refl refl

uboot_get_primary-uboot_set_primary_example :
    ((uboot_set_primary glib fw_tools board rootfs_b before).0 ≡ ok tt)
    × ((uboot_get_primary glib fw_tools board
          (uboot_set_primary glib fw_tools board rootfs_b before).1).0
        ≡ ok rootfs_b)
unfolding fw_env lookup_env str_eq
uboot_get_primary-uboot_set_primary_example =
    uboot_get_primary-uboot_set_primary glib glib_laws fw_tools board fw_env rootfs_b (codes "B")
      (codes "A B") before b-Owns (omega arith) refl (rw rest_before (b-BootName, (a-BootName, tt)))
