-- ===== src/Manifest/Check.antt =====
-- The checks of kirkstone/local/rauc/src/manifest.c. A check returns no value; the one on the images
-- of a bundle sets sizes that an old manifest left out.
use docker_yocto_kirkstone_n.Prelude.{
  ℕ, ◌%◌, Bool, true, false, not, ◌&&◌, ◌||◌, List, [], ◌∷◌, Option, none, some, Str, length, ◌==◌,
  is_some, if◌then◌else◌, pos, is_negative, is_minus_one,
}
use docker_yocto_kirkstone_n.Exec.{
  Result, ok, Exec, pure, raise, ◌>>◌, fail_if, for_each, for_each_element, manifest_check, aborted,
}
use docker_yocto_kirkstone_n.Slot.{GChecksumType, sha256}
use docker_yocto_kirkstone_n.Hex.{hex_decode}
use docker_yocto_kirkstone_n.Manifest.{
  RaucImage, RaucManifest, RManifestBundleFormat, format_plain, format_verity, format_crypt,
  other_format,
}

abbrev pub Check : Type 0
Check = Exec RaucManifest (Unit {0})

abbrev pub is_plain : RManifestBundleFormat → Bool
is_plain format_plain = true
is_plain _ = false

abbrev pub is_unsupported : RManifestBundleFormat → Bool
is_unsupported (other_format n) = true
is_unsupported _ = false

-- The loop that looks for a hook of an image.
unfoldable pub images_have_hooks : List RaucImage → Bool
images_have_hooks [] = false
images_have_hooks (image ∷ images) =
    image.hooks.pre_install
    || image.hooks.install
    || image.hooks.post_install
    || images_have_hooks images

abbrev pub have_hooks : RaucManifest → Bool
have_hooks mf = mf.hooks.install_check || images_have_hooks mf.images

unfoldable pub check_manifest_common : Check
check_manifest_common mf =
    (fail_if (is_unsupported mf.bundle_format) manifest_check
        >> fail_if (have_hooks mf && not (is_some mf.hook_name)) manifest_check)
      mf

-- `strv && strv->len`
abbrev pub has_elements : Option (List Str) → Bool
has_elements (some (x ∷ xs)) = true
has_elements _ = false

abbrev pub check_plain_image : RaucImage → Check
check_plain_image image =
    fail_if (is_some image.artifact) manifest_check
    >> fail_if (is_some image.convert || has_elements image.converted) manifest_check

unfoldable pub check_manifest_plain : Check
check_manifest_plain mf =
    (fail_if (not (is_plain mf.bundle_format)) aborted >> for_each check_plain_image mf.images) mf

abbrev pub is_sha256 : GChecksumType → Bool
is_sha256 sha256 = true
is_sha256 _ = false

-- An image without a size: an install hook may do without, and gets the size 0.
abbrev pub settle_size : Bool → Bool → Exec RaucImage (Unit {0})
settle_size false hook image = pure tt image
settle_size true false image = raise manifest_check image
settle_size true true image =
    (ok tt, record image { checksum = record (image.checksum) { size = pos 0 } })

abbrev pub differing_lengths : List Str → Option (List Str) → Bool
differing_lengths convert none = true
differing_lengths convert (some converted) = not (length convert == length converted)

abbrev pub missing_converted : Option (List Str) → Option (List Str) → Bool
missing_converted none converted = false
missing_converted (some convert) converted = differing_lengths convert converted

abbrev pub check_named_image : Exec RaucImage (Unit {0})
check_named_image image =
    (fail_if (not (is_sha256 image.checksum.type)) manifest_check
        >> fail_if (not (is_some image.checksum.digest)) manifest_check
        >> settle_size (is_negative image.checksum.size) image.hooks.install
        >> fail_if (missing_converted image.convert image.converted) manifest_check)
      image

abbrev pub check_if_named : Option Str → Exec RaucImage (Unit {0})
check_if_named none = pure tt
check_if_named (some filename) = check_named_image

unfoldable pub check_bundled_image : Exec RaucImage (Unit {0})
check_bundled_image image = check_if_named image.filename image

abbrev pub put_images :
    RaucManifest → Result (Unit {0}) × List RaucImage → Result (Unit {0}) × RaucManifest
put_images mf (r, images) = (r, record mf { images = images })

unfoldable pub check_manifest_bundled : Check
check_manifest_bundled mf = put_images mf (for_each_element check_bundled_image mf.images)

abbrev has_slash : Option Str → Bool
has_slash none = false
has_slash (some filename) = holds filename
  where
    holds : Str → Bool
    holds [] = false
    holds (c ∷ s) = c == b'/' || holds s

abbrev pub check_input_image : RaucImage → Check
check_input_image image =
    fail_if (has_slash image.filename) manifest_check
    >> fail_if (is_some image.checksum.digest) manifest_check
    >> fail_if (not (is_minus_one image.checksum.size)) manifest_check
    >> fail_if (has_elements image.converted) manifest_check

unfoldable pub check_manifest_input : Check
check_manifest_input mf =
    (check_manifest_common
        >> fail_if (is_unsupported mf.bundle_format) manifest_check
        >> (if is_plain mf.bundle_format then check_manifest_plain else pure tt)
        >> for_each check_input_image mf.images)
      mf

-- What only an external manifest has.
abbrev pub check_unprotected : RaucManifest → Check
check_unprotected mf =
    fail_if (is_some mf.bundle_crypt_key) manifest_check
    >> fail_if (is_some mf.bundle_verity_hash) manifest_check
    >> fail_if (is_some mf.bundle_verity_salt) manifest_check
    >> fail_if (not (mf.bundle_verity_size == 0)) manifest_check

unfoldable pub check_manifest_internal : Check
check_manifest_internal mf =
    (check_manifest_common
        >> fail_if (not (is_plain mf.bundle_format)) manifest_check
        >> check_manifest_bundled
        >> check_manifest_plain
        >> check_unprotected mf)
      mf

abbrev pub check_create_image : RaucImage → Check
check_create_image image =
    fail_if (image.hooks.install && (image.hooks.pre_install || image.hooks.post_install))
      manifest_check

unfoldable pub check_manifest_create : Check
check_manifest_create mf = for_each check_create_image mf.images mf

module _ (xdigit_value : ℕ → Option ℕ) where
  -- Text that is there and is 32 bytes in hexadecimal digits.
  abbrev pub decodes : Option Str → Bool
  decodes none = false
  decodes (some hex) = is_some (hex_decode xdigit_value hex 32)

  -- The case of R_MANIFEST_FORMAT_VERITY.
  abbrev pub check_verity : RaucManifest → Check
  check_verity mf =
      fail_if (not (decodes mf.bundle_verity_hash)) manifest_check
      >> fail_if (not (decodes mf.bundle_verity_salt)) manifest_check
      >> fail_if (mf.bundle_verity_size == 0) manifest_check
      >> fail_if (not (mf.bundle_verity_size % 4096 == 0)) manifest_check

  -- The switch over the format; the case of R_MANIFEST_FORMAT_CRYPT falls through.
  abbrev pub check_format : RManifestBundleFormat → RaucManifest → Check
  check_format format_plain mf = raise manifest_check
  check_format format_crypt mf =
      fail_if (not (decodes mf.bundle_crypt_key)) manifest_check >> check_verity mf
  check_format format_verity mf = check_verity mf
  check_format (other_format n) mf = raise aborted

  unfoldable pub check_manifest_external : Check
  check_manifest_external mf =
      (fail_if (is_unsupported mf.bundle_format) manifest_check
          >> check_manifest_common
          >> check_format mf.bundle_format mf
          >> check_manifest_bundled)
        mf
