-- ===== src/Examples/Bundles.antt =====
-- Manifests of bundles for the board.
use docker_yocto_kirkstone_n.Prelude.{
  ℕ, zero, suc, [], ◌∷◌, Option, none, some, Str, codes, false, true, pos, negsuc,
}
use docker_yocto_kirkstone_n.Slot.{sha256}
use docker_yocto_kirkstone_n.Manifest.{RaucImage, RaucManifest, format_plain, format_verity}

abbrev pub image_for : Str → Option Str → Option Str → RaucImage
image_for slotclass variant filename = record {
  slotclass = slotclass;
  artifact = none;
  variant = variant;
  checksum = record { type = sha256; digest = some (codes "d1"); size = pos 4096 };
  filename = filename;
  hooks = record { pre_install = false; install = false; post_install = false };
  adaptive = none;
  convert = none;
  converted = none;
}

abbrev pub rootfs_image : RaucImage
rootfs_image = image_for (codes "rootfs") none (some (codes "rootfs.ext4"))

-- Its size was left out, and its install hook does without.
abbrev pub hook_image : RaucImage
hook_image = record (image_for (codes "app") none (some (codes "app.img"))) {
  checksum = record { type = sha256; digest = some (codes "d2"); size = negsuc 0 };
  hooks = record { pre_install = false; install = true; post_install = false };
}

abbrev pub plain_manifest : RaucManifest
plain_manifest = record {
  update_compatible = some (codes "board");
  update_version = some (codes "2.0");
  update_description = none;
  update_build = none;
  bundle_format = format_plain;
  bundle_verity_salt = none;
  bundle_verity_hash = none;
  bundle_verity_size = 0;
  bundle_format_explicit = false;
  bundle_crypt_key = none;
  handler_name = none;
  handler_args = none;
  hook_name = none;
  hooks = record { install_check = false };
  images = rootfs_image ∷ [];
  meta = [];
  was_encrypted = false;
  hash = some (codes "5e");
  warnings = [];
}

abbrev zeros : ℕ → Str
zeros zero = []
zeros (suc n) = b'0' ∷ zeros n

abbrev pub verity_manifest : RaucManifest
verity_manifest = record plain_manifest {
  bundle_format = format_verity;
  bundle_verity_salt = some (zeros 64);
  bundle_verity_hash = some (zeros 64);
  bundle_verity_size = 8192;
  hook_name = some (codes "hook.sh");
  images = rootfs_image ∷ hook_image ∷ [];
}
