-- ===== src/Examples/ManifestRun.antt =====
-- The checks on the manifests of the board's bundles.
use docker_yocto_kirkstone_n.Prelude.{◌≡◌, ◌≢◌, ◌↔◌, refl, [], ◌∷◌, pos}
use docker_yocto_kirkstone_n.Exec.{ok, for_each, for_each_element, manifest_check, err}
use docker_yocto_kirkstone_n.Exec.Accepts.{Pairwise}
use docker_yocto_kirkstone_n.Hex.{hex_decode, hex_pairs}
use docker_yocto_kirkstone_n.Manifest.{RaucManifest}
use docker_yocto_kirkstone_n.Manifest.Check.{
  images_have_hooks, check_manifest_common, check_manifest_plain, check_bundled_image,
  check_manifest_bundled, check_manifest_input, check_manifest_create, check_manifest_internal,
  check_manifest_external,
}
use docker_yocto_kirkstone_n.Manifest.Images.{Settled}
use docker_yocto_kirkstone_n.Manifest.External.{
  IsExternal, check_manifest_external_sound, check_manifest_external_iff,
}
use docker_yocto_kirkstone_n.Manifest.Internal.{internal-external}
use docker_yocto_kirkstone_n.Examples.HexRun.{xdigit_value}
use docker_yocto_kirkstone_n.Examples.Bundles.{
  rootfs_image, hook_image, plain_manifest, verity_manifest,
}

abbrev settled_manifest : RaucManifest
settled_manifest = record verity_manifest {
  images =
      rootfs_image
      ∷ (record hook_image { checksum = record (hook_image.checksum) { size = pos 0 } })
      ∷ [];
}

verity_passes : check_manifest_external xdigit_value verity_manifest ≡ (ok tt, settled_manifest)
unfolding check_manifest_external check_manifest_common check_manifest_bundled check_bundled_image
    images_have_hooks for_each_element hex_decode hex_pairs
verity_passes = refl

check_manifest_external_sound_example :
    IsExternal xdigit_value settled_manifest
    × Pairwise Settled verity_manifest.images settled_manifest.images
    × (settled_manifest ≡ record verity_manifest { images = settled_manifest.images })
check_manifest_external_sound_example =
    check_manifest_external_sound xdigit_value verity_manifest settled_manifest verity_passes

check_manifest_external_iff_example :
    (check_manifest_external xdigit_value settled_manifest ≡ (ok tt, settled_manifest))
    ↔ IsExternal xdigit_value settled_manifest
check_manifest_external_iff_example = check_manifest_external_iff xdigit_value settled_manifest

plain_passes : check_manifest_internal plain_manifest ≡ (ok tt, plain_manifest)
unfolding check_manifest_internal check_manifest_common check_manifest_bundled check_manifest_plain
    check_bundled_image images_have_hooks for_each_element for_each
plain_passes = refl

internal-external_example :
    check_manifest_external xdigit_value plain_manifest ≢ (ok tt, settled_manifest)
internal-external_example =
    internal-external xdigit_value plain_manifest plain_manifest settled_manifest plain_passes

-- A digest is nothing for an input manifest.
digest_refused : check_manifest_input plain_manifest ≡ (err manifest_check, plain_manifest)
unfolding check_manifest_input check_manifest_common check_manifest_plain images_have_hooks for_each
digest_refused = refl

create_passes : check_manifest_create verity_manifest ≡ (ok tt, verity_manifest)
unfolding check_manifest_create for_each
create_passes = refl
