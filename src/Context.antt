-- ===== src/Context.antt =====
-- The part of RaucConfig (kirkstone/local/rauc/include/config_file.h) and of RaucContext
-- (include/context.h) that the modelled functions read. The attempts are natural numbers, since
-- load_config refuses negative values.
use docker_yocto_kirkstone_n.Prelude.{ℕ, Bool, List, Option, Str}
use docker_yocto_kirkstone_n.Slot.{RaucSlot}

-- include/artifacts.h, without the artifacts that a repository holds.
pub record RArtifactRepo : Type 0 where
  pub name : Str
  pub description : Option Str
  pub path : Str
  pub type : Str
  pub parent_class : Option Str
  pub data_directory : Option Str

pub record RaucConfig : Type 0 where
  pub system_compatible : Option Str
  pub system_variant : Option Str
  pub system_min_bundle_version : Option Str
  pub system_bootloader : Option Str
  pub system_bb_statename : Option Str
  pub system_bb_dtbpath : Option Str
  pub boot_default_attempts : ℕ
  pub boot_attempts_primary : ℕ
  pub grubenv_path : Option Str
  pub custom_bootloader_backend : Option Str
  pub efi_use_bootnext : Bool
  pub statusfile_path : Option Str
  pub activate_installed : Bool
  pub preinstall_handler : Option Str
  pub postinstall_handler : Option Str
  pub artifact_repos : List RArtifactRepo
  pub slots : List RaucSlot
  pub slot_states_determined : Bool
