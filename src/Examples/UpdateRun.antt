-- ===== src/Examples/UpdateRun.antt =====
-- The handler for an image of a boot partition.
use docker_yocto_kirkstone_n.Prelude.{◌≡◌, ◌≢◌, refl, true, none, some, codes, inl, inr}
use docker_yocto_kirkstone_n.Exec.{ok}
use docker_yocto_kirkstone_n.Slot.{RaucSlot}
use docker_yocto_kirkstone_n.Manifest.{RaucImage}
use docker_yocto_kirkstone_n.Update.{
  Features, updatepairs, find_handler, get_update_handler, img_to_raw_handler,
  img_to_boot_mbr_switch_handler,
}
use docker_yocto_kirkstone_n.Update.Shield.{get_update_handler-not_raw}
use docker_yocto_kirkstone_n.Examples.Board.{slot_named}
use docker_yocto_kirkstone_n.Examples.Bundles.{image_for}
use docker_yocto_kirkstone_n.Examples.Glob.{glob, glob_laws}

abbrev pub all_features : Features
all_features = record { emmc_boot = true; gpt = true }

abbrev boot_image : RaucImage
boot_image = image_for (codes "boot") none (some (codes "boot.img"))

abbrev boot_slot : RaucSlot
boot_slot = record (slot_named (codes "boot.0") (codes "boot") (codes "/dev/sda") none none) {
  type = codes "boot-mbr-switch";
}

boot_handler :
    get_update_handler glob all_features boot_image boot_slot ≡ ok img_to_boot_mbr_switch_handler
unfolding get_update_handler updatepairs find_handler glob
boot_handler = refl

get_update_handler-not_raw_example : img_to_boot_mbr_switch_handler ≢ img_to_raw_handler
get_update_handler-not_raw_example =
    get_update_handler-not_raw glob glob_laws all_features boot_image boot_slot
      img_to_boot_mbr_switch_handler (inr (inl refl)) boot_handler
