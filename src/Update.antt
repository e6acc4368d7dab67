-- ===== src/Update.antt =====
-- kirkstone/local/rauc/src/update_handler.c: the handler for an image and a slot. What the handlers
-- do is the work of a parameter; g_pattern_match_simple() is a function of GLib.
pub mod Shield
use docker_yocto_kirkstone_n.Prelude.{
  Bool, true, false, ◌&&◌, List, [], ◌∷◌, ◌++◌, Option, none, some, Str, codes, if◌then◌else◌,
}
use Prim.Native.String.{String}
use docker_yocto_kirkstone_n.Exec.{Result, ok, err, update_no_handler}
use docker_yocto_kirkstone_n.Slot.{RaucSlot}
use docker_yocto_kirkstone_n.Manifest.{RaucImage}

-- The functions that the type img_to_slot_handler points to.
pub data ImgToSlotHandler : Type 0 where
  hook_install_handler : ImgToSlotHandler
  img_to_fs_handler img_to_raw_handler img_to_ubivol_handler : ImgToSlotHandler
  img_to_ubifs_handler archive_to_ext4_handler archive_to_ubifs_handler : ImgToSlotHandler
  archive_to_vfat_handler archive_to_jffs2_handler img_to_nor_handler : ImgToSlotHandler
  img_to_nand_handler img_to_boot_emmc_handler img_to_boot_mbr_switch_handler : ImgToSlotHandler
  img_to_boot_gpt_switch_handler img_to_boot_raw_fallback_handler : ImgToSlotHandler

pub record RaucUpdatePair : Type 0 where
  pub src : Str
  pub dest : Str
  pub handler : Option ImgToSlotHandler

abbrev pub pair : String → String → Option ImgToSlotHandler → RaucUpdatePair
pair src dest handler = record { src = codes src; dest = codes dest; handler = handler }

-- The table in its parts, between the conditions of the preprocessor.
abbrev pub image_pairs : List RaucUpdatePair
image_pairs =
    pair "*.ext4.caibx" "ext4" (some img_to_fs_handler)
    ∷ pair "*.ext4.caibx" "raw" (some img_to_raw_handler)
    ∷ pair "*.vfat.caibx" "raw" (some img_to_raw_handler)
    ∷ pair "*.ubifs.caibx" "ubivol" (some img_to_ubivol_handler)
    ∷ pair "*.ubifs.caibx" "ubifs" (some img_to_ubifs_handler)
    ∷ pair "*.img.caibx" "ubivol" (some img_to_ubivol_handler)
    ∷ pair "*.img.caibx" "ubifs" (some img_to_ubifs_handler)
    ∷ pair "*.squashfs.caibx" "ubivol" (some img_to_ubivol_handler)
    ∷ pair "*.squashfs-lz4.caibx" "ubivol" (some img_to_ubivol_handler)
    ∷ pair "*.squashfs-lzo.caibx" "ubivol" (some img_to_ubivol_handler)
    ∷ pair "*.squashfs-xz.caibx" "ubivol" (some img_to_ubivol_handler)
    ∷ pair "*.squashfs-zst.caibx" "ubivol" (some img_to_ubivol_handler)
    ∷ pair "*.squashfs.caibx" "raw" (some img_to_raw_handler)
    ∷ pair "*.squashfs-lz4.caibx" "raw" (some img_to_raw_handler)
    ∷ pair "*.squashfs-lzo.caibx" "raw" (some img_to_raw_handler)
    ∷ pair "*.squashfs-xz.caibx" "raw" (some img_to_raw_handler)
    ∷ pair "*.squashfs-zst.caibx" "raw" (some img_to_raw_handler)
    ∷ pair "*.caidx" "ext4" (some archive_to_ext4_handler)
    ∷ pair "*.caidx" "ubifs" (some archive_to_ubifs_handler)
    ∷ pair "*.caidx" "vfat" (some archive_to_vfat_handler)
    ∷ pair "*.ext4" "ext4" (some img_to_fs_handler)
    ∷ pair "*.ext4" "raw" (some img_to_raw_handler)
    ∷ pair "*.vfat" "raw" (some img_to_raw_handler)
    ∷ pair "*.squashfs" "raw" (some img_to_raw_handler)
    ∷ pair "*.squashfs-lz4" "raw" (some img_to_raw_handler)
    ∷ pair "*.squashfs-lzo" "raw" (some img_to_raw_handler)
    ∷ pair "*.squashfs-xz" "raw" (some img_to_raw_handler)
    ∷ pair "*.squashfs-zst" "raw" (some img_to_raw_handler)
    ∷ pair "*.vfat" "vfat" (some img_to_fs_handler)
    ∷ pair "*.tar*" "ext4" (some archive_to_ext4_handler)
    ∷ pair "*.catar" "ext4" (some archive_to_ext4_handler)
    ∷ pair "*.tar*" "ubifs" (some archive_to_ubifs_handler)
    ∷ pair "*.tar*" "jffs2" (some archive_to_jffs2_handler)
    ∷ pair "*.tar*" "vfat" (some archive_to_vfat_handler)
    ∷ pair "*.ubifs" "ubivol" (some img_to_ubivol_handler)
    ∷ pair "*.ubifs" "ubifs" (some img_to_ubifs_handler)
    ∷ pair "*.img" "ext4" (some img_to_fs_handler)
    ∷ pair "*.img" "nor" (some img_to_nor_handler)
    ∷ pair "*.img" "nand" (some img_to_nand_handler)
    ∷ pair "*.img" "ubifs" (some img_to_ubifs_handler)
    ∷ pair "*.img" "ubivol" (some img_to_ubivol_handler)
    ∷ pair "*.img" "vfat" (some img_to_fs_handler)
    ∷ pair "*.squashfs" "ubivol" (some img_to_ubivol_handler)
    ∷ pair "*.squashfs-lz4" "ubivol" (some img_to_ubivol_handler)
    ∷ pair "*.squashfs-lzo" "ubivol" (some img_to_ubivol_handler)
    ∷ pair "*.squashfs-xz" "ubivol" (some img_to_ubivol_handler)
    ∷ pair "*.squashfs-zst" "ubivol" (some img_to_ubivol_handler)
    ∷ []

abbrev pub emmc_pairs : List RaucUpdatePair
emmc_pairs = pair "*.img" "boot-emmc" (some img_to_boot_emmc_handler) ∷ []

abbrev pub switch_pairs : List RaucUpdatePair
switch_pairs =
    pair "*" "boot-emmc" none
    ∷ pair "*.vfat" "boot-mbr-switch" (some img_to_boot_mbr_switch_handler)
    ∷ pair "*.img" "boot-mbr-switch" (some img_to_boot_mbr_switch_handler)
    ∷ pair "*" "boot-mbr-switch" none
    ∷ []

abbrev pub gpt_pairs : List RaucUpdatePair
gpt_pairs =
    pair "*.vfat" "boot-gpt-switch" (some img_to_boot_gpt_switch_handler)
    ∷ pair "*.ext4" "boot-gpt-switch" (some img_to_boot_gpt_switch_handler)
    ∷ pair "*.img" "boot-gpt-switch" (some img_to_boot_gpt_switch_handler)
    ∷ []

abbrev pub fallback_pairs : List RaucUpdatePair
fallback_pairs =
    pair "*" "boot-gpt-switch" none
    ∷ pair "*.img" "boot-raw-fallback" (some img_to_boot_raw_fallback_handler)
    ∷ pair "*" "boot-raw-fallback" none
    ∷ pair "*.img.caibx" "*" (some img_to_raw_handler)
    ∷ pair "*.img" "*" (some img_to_raw_handler)
    ∷ []

-- The features that the build turns on.
pub record Features : Type 0 where
  pub emmc_boot : Bool
  pub gpt : Bool

unfoldable pub updatepairs : Features → List RaucUpdatePair
updatepairs f =
    image_pairs
    ++ ((if f.emmc_boot then emmc_pairs else [])
        ++ (switch_pairs ++ ((if f.gpt then gpt_pairs else []) ++ fallback_pairs)))

abbrev pub with_handler : Option ImgToSlotHandler → Result ImgToSlotHandler
with_handler none = err update_no_handler
with_handler (some handler) = ok handler

module _ (pattern_match : Str → Str → Bool) where
  -- The loop over the table: the first pair that matches decides, also where it has no handler.
  unfoldable pub find_handler : List RaucUpdatePair → Str → Str → Option ImgToSlotHandler
  find_handler [] src dest = none
  find_handler (u ∷ pairs) src dest =
      let rest = find_handler pairs src dest in
      if pattern_match u.src src && pattern_match u.dest dest then u.handler else rest

  -- No pattern matches a file name that is NULL.
  abbrev pub find_for : Features → Option Str → Str → Option ImgToSlotHandler
  find_for f none dest = none
  find_for f (some src) dest = find_handler (updatepairs f) src dest

  unfoldable pub get_update_handler : Features → RaucImage → RaucSlot → Result ImgToSlotHandler
  get_update_handler f mfimage dest_slot =
      if mfimage.hooks.install
      then ok hook_install_handler
      else with_handler (find_for f mfimage.filename dest_slot.type)
