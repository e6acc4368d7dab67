-- ===== src/Manifest.antt =====
-- kirkstone/local/rauc/include/manifest.h: a bundle's manifest.
pub mod Check
pub mod Images
pub mod External
pub mod Internal
use docker_yocto_kirkstone_n.Prelude.{ℕ, Bool, List, Option, Str}
use docker_yocto_kirkstone_n.Slot.{RaucChecksum}

pub record InstallHooks : Type 0 where
  pub install_check : Bool

pub record SlotHooks : Type 0 where
  pub pre_install : Bool
  pub install : Bool
  pub post_install : Bool

pub record RaucImage : Type 0 where
  pub slotclass : Str
  pub artifact : Option Str
  pub variant : Option Str
  pub checksum : RaucChecksum
  pub filename : Option Str
  pub hooks : SlotHooks
  pub adaptive : Option (List Str)
  pub convert : Option (List Str)
  pub converted : Option (List Str)

-- `other_format` is a value of the C type that no enumerator names.
pub data RManifestBundleFormat : Type 0 where
  format_plain format_verity format_crypt : RManifestBundleFormat
  other_format : ℕ → RManifestBundleFormat

pub record RaucManifest : Type 0 where
  pub update_compatible : Option Str
  pub update_version : Option Str
  pub update_description : Option Str
  pub update_build : Option Str
  pub bundle_format : RManifestBundleFormat
  pub bundle_verity_salt : Option Str
  pub bundle_verity_hash : Option Str
  pub bundle_verity_size : ℕ
  pub bundle_format_explicit : Bool
  pub bundle_crypt_key : Option Str
  pub handler_name : Option Str
  pub handler_args : Option Str
  pub hook_name : Option Str
  pub hooks : InstallHooks
  pub images : List RaucImage
  pub meta : List (Str × List (Str × Str))
  pub was_encrypted : Bool
  pub hash : Option Str
  pub warnings : List Str
