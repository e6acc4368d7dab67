-- ===== src/Install/Device.antt =====
-- What the installation of kirkstone/local/rauc/src/install.c uses of the other components: the boot
-- selection, the status of slots, the update handlers and the artifacts, as operations on the state
-- of the device, and GLib's functions on paths.
pub mod Logged
use docker_yocto_kirkstone_n.Prelude.{Bool, Option, Str}
use docker_yocto_kirkstone_n.Exec.{Exec}
use docker_yocto_kirkstone_n.Slot.{RaucSlot}
use docker_yocto_kirkstone_n.Context.{RArtifactRepo}
use docker_yocto_kirkstone_n.Manifest.{RaucImage, RaucManifest}
use docker_yocto_kirkstone_n.Update.{ImgToSlotHandler}
use docker_yocto_kirkstone_n.Install.Plans.{Artifacts}

pub record Paths : Type 0 where
  -- g_path_is_absolute(path)
  pub path_is_absolute : Str → Bool
  -- g_build_filename(dir, name, NULL)
  pub build_filename : Str → Str → Str

-- The options of an installation (RaucInstallArgs).
pub record RaucInstallArgs : Type 0 where
  pub name : Str
  pub ignore_compatible : Bool
  pub ignore_version_limit : Bool
  pub transaction : Option Str

pub record Device (S : Type 0) : Type 0 where
  pub artifacts : Artifacts S
  -- g_file_test(path, G_FILE_TEST_EXISTS)
  pub exists : Str → S → Bool
  -- the current time as g_date_time_format() prints it
  pub now : S → Str
  -- r_slot_status_load: the slot with its status
  pub slot_status_load : RaucSlot → S → RaucSlot × S
  pub slot_status_save : RaucSlot → Exec S (Unit {0})
  pub move_checksum_data_directory : RaucSlot → Option Str → Exec S (Unit {0})
  -- the handler on the image, the slot and the program of the hooks
  pub slot_handler : ImgToSlotHandler → RaucImage → RaucSlot → Option Str → Exec S (Unit {0})
  pub handle_artifact_install_plan :
      RaucManifest → RaucImage → RArtifactRepo → Option Str → Exec S (Unit {0})
  pub mark_bad : RaucSlot → Exec S (Unit {0})
  pub boot_set_primary : RaucSlot → Exec S (Unit {0})
