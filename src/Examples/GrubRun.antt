-- ===== src/Examples/GrubRun.antt =====
-- The GRUB backend run on the board's environment block.
use docker_yocto_kirkstone_n.Prelude.{
  ◌≢◌, false, ◌≡◌, refl, [], ◌∷◌, some, codes, true, In, str_eq, strip_prefix, join, ◌&&◌,
}
use docker_yocto_kirkstone_n.Exec.{ok}
use docker_yocto_kirkstone_n.Glib.{space}
use docker_yocto_kirkstone_n.Process.{communicate, wait_check}
use docker_yocto_kirkstone_n.Boot.Env.{Env, lookup_env}
use docker_yocto_kirkstone_n.Boot.Names.{is_listed}
use docker_yocto_kirkstone_n.Boot.Grub.{
  find_variable, grub_env_set, grub_env_get, grub_slot_good, grub_slot_bootable, grub_get_state,
  grub_set_state, grub_match, grub_scan, grub_get_primary, grub_set_primary,
}
use docker_yocto_kirkstone_n.Boot.Grub.State.{
  grub_get_state-grub_set_state, grub_get_state-grub_set_state_ne,
}
use docker_yocto_kirkstone_n.Boot.Grub.Primary.{grub_get_primary-grub_set_primary}
use docker_yocto_kirkstone_n.Boot.Grub.Bad.{grub_get_primary-grub_set_state_bad}
use docker_yocto_kirkstone_n.Boot.Grub.Sound.{grub_get_primary_sound}
use docker_yocto_kirkstone_n.Examples.Split.{strsplit, pieces, strchomp}
use docker_yocto_kirkstone_n.Examples.Numbers.{strtoull, parse}
use docker_yocto_kirkstone_n.Examples.GlibModel.{glib, glib_laws}
use docker_yocto_kirkstone_n.Examples.GrubTool.{
  grub_tools, grub_editenv, run, cleaned, is_clean, lacks, store, split_pair,
}
use docker_yocto_kirkstone_n.Examples.Board.{
  board, grubenv, rootfs_a, rootfs_b, a-BootName, b-BootName, b-ne-a, board-BootNames, b-Owns,
}

-- A is good, B was tried and is not good.
abbrev pub before : Env
before =
    (codes "ORDER", codes "A B")
    ∷ (codes "A_OK", codes "1")
    ∷ (codes "A_TRY", codes "0")
    ∷ (codes "B_OK", codes "0")
    ∷ (codes "B_TRY", codes "1")
    ∷ []

primary_before : grub_get_primary glib grub_tools board before ≡ (ok rootfs_a, before)
unfolding grub_get_primary grub_env_get communicate run str_eq cleaned is_clean lacks strsplit
    pieces strchomp find_variable strip_prefix join grub_scan grub_match grub_slot_good
    grub_slot_bootable strtoull parse
primary_before = refl

grub_get_state-grub_set_state_example :
    ((grub_set_state glib grub_tools board rootfs_b true before).0 ≡ ok tt)
    × ((grub_get_state glib grub_tools board rootfs_b
          (grub_set_state glib grub_tools board rootfs_b true before).1).0
        ≡ ok (is_listed (strsplit (strchomp (codes "A B")) space) (codes "B") && true))
unfolding grub_editenv lookup_env cleaned is_clean lacks str_eq
grub_get_state-grub_set_state_example =
    grub_get_state-grub_set_state glib glib_laws grub_tools board grubenv refl
      (grub_editenv grubenv) rootfs_b (codes "B") (codes "A B") true before refl b-BootName refl

grub_get_state-grub_set_state_ne_example :
    (grub_get_state glib grub_tools board rootfs_a
      (grub_set_state glib grub_tools board rootfs_b true before).1).0
    ≡ (grub_get_state glib grub_tools board rootfs_a before).0
grub_get_state-grub_set_state_ne_example =
    grub_get_state-grub_set_state_ne glib glib_laws grub_tools board grubenv refl
      (grub_editenv grubenv) rootfs_b rootfs_a (codes "B") (codes "A") true before refl refl
      b-BootName a-BootName b-ne-a

grub_get_primary-grub_set_primary_example :
    ((grub_set_primary glib grub_tools board rootfs_b before).0 ≡ ok tt)
    × ((grub_get_primary glib grub_tools board
          (grub_set_primary glib grub_tools board rootfs_b before).1).0
        ≡ ok rootfs_b)
grub_get_primary-grub_set_primary_example =
    grub_get_primary-grub_set_primary glib glib_laws grub_tools board grubenv refl
      (grub_editenv grubenv) board-BootNames rootfs_b (codes "B") before b-Owns

grub_get_primary_sound_example :
    In rootfs_a board.slots
    × (grub_get_state glib grub_tools board rootfs_a before ≡ (ok true, before))
    × (before ≡ before)
grub_get_primary_sound_example =
    grub_get_primary_sound glib glib_laws grub_tools board grubenv refl (grub_editenv grubenv)
      board-BootNames rootfs_a before before primary_before

pub primary_after_bad :
    grub_get_primary glib grub_tools board
      (grub_set_state glib grub_tools board rootfs_b false before).1
    ≡ (ok rootfs_a, (grub_set_state glib grub_tools board rootfs_b false before).1)
unfolding grub_set_state grub_env_set wait_check store split_pair grub_get_primary grub_env_get
    communicate run str_eq cleaned is_clean lacks strsplit pieces strchomp find_variable
    strip_prefix join grub_scan grub_match grub_slot_good grub_slot_bootable strtoull parse
primary_after_bad = refl

grub_get_primary-grub_set_state_bad_example : rootfs_a.bootname ≢ some (codes "B")
grub_get_primary-grub_set_state_bad_example =
    grub_get_primary-grub_set_state_bad glib glib_laws grub_tools board grubenv refl
      (grub_editenv grubenv) rootfs_b (codes "B") refl b-BootName rootfs_a before
      (grub_set_state glib grub_tools board rootfs_b false before).1 board-BootNames
      primary_after_bad
