-- ===== src/Install/SlotPlan.antt =====
-- handle_slot_install_plan of kirkstone/local/rauc/src/install.c: one image is written to its slot, and
-- the slot's status tells so.
pub mod Trace
use docker_yocto_kirkstone_n.Prelude.{
  ℕ, ◌+◌, ◌%◌, ◌^◌, Bool, true, false, not, ◌&&◌, Option, none, some, Str, codes, opt_eq, is_some,
  pos, if◌then◌else◌,
}
use docker_yocto_kirkstone_n.Exec.{
  Error, Exec, pure, raise, ◌>>=◌, ◌>>◌, catch, install_mounted, aborted,
}
use docker_yocto_kirkstone_n.Slot.{RaucChecksum, RaucSlotStatus, RaucSlot}
use docker_yocto_kirkstone_n.Context.{RaucConfig}
use docker_yocto_kirkstone_n.Manifest.{RaucImage, RaucManifest}
use docker_yocto_kirkstone_n.Update.{ImgToSlotHandler}
use docker_yocto_kirkstone_n.Install.Device.{Device, RaucInstallArgs}

-- r_slot_clear_status; the type of the checksum and the counters stay.
abbrev pub clear_status : RaucSlotStatus → RaucSlotStatus
clear_status st = record st {
  bundle_compatible = none;
  bundle_version = none;
  bundle_description = none;
  bundle_build = none;
  bundle_hash = none;
  status = none;
  checksum = record (st.checksum) { digest = none; size = pos 0 };
  installed_txn = none;
  installed_timestamp = none;
  activated_timestamp = none;
}

-- The status after an installation; the counter is a guint32.
abbrev pub update_slot_status :
    RaucSlotStatus → Str → RaucManifest → RaucImage → RaucInstallArgs → Str → RaucSlotStatus
update_slot_status slot_state status manifest image args now = record (clear_status slot_state) {
  bundle_compatible = manifest.update_compatible;
  bundle_version = manifest.update_version;
  bundle_description = manifest.update_description;
  bundle_build = manifest.update_build;
  bundle_hash = manifest.hash;
  status = some status;
  checksum = image.checksum;
  installed_txn = args.transaction;
  installed_timestamp = some now;
  installed_count = (slot_state.installed_count + 1) % 2 ^ 32;
}

abbrev pub with_status : RaucSlot → RaucSlotStatus → RaucSlot
with_status slot st = record slot { status = some st }

-- Whether the slot is left as it is, since it has the image.
abbrev pub is_up_to_date : RaucSlot → RaucSlotStatus → RaucImage → Bool
is_up_to_date slot slot_state image =
    not slot.install_same
    && opt_eq slot_state.status (some (codes "ok"))
    && opt_eq image.checksum.digest slot_state.checksum.digest

-- The status while the slot is written.
abbrev pub pending : RaucSlotStatus → RaucSlotStatus
pending st = record st {
  status = some (codes "pending");
  checksum = record (st.checksum) { digest = none; size = pos 0 };
}

abbrev pub updating : RaucSlotStatus → RaucSlotStatus
updating st = record st { status = some (codes "update") }

module _ {S : Type 0} (d : Device S) (manifest : RaucManifest) (args : RaucInstallArgs)
    (hook_name : Option Str) where
  -- update_slot_status() and r_slot_status_save()
  abbrev pub save_outcome : RaucSlot → RaucSlotStatus → RaucImage → Str → Exec S (Unit {0})
  save_outcome slot slot_state image status s =
      d.slot_status_save
        (with_status slot (update_slot_status slot_state status manifest image args (d.now s))) s

  -- Failures to write the status after a failed update are only logged.
  abbrev pub copy_image :
      RaucSlot → RaucSlotStatus → RaucImage → ImgToSlotHandler → Exec S (Unit {0})
  copy_image slot slot_state image handler =
      catch (d.slot_handler handler image (with_status slot (updating slot_state)) hook_name)
        (λ u. save_outcome slot (updating slot_state) image (codes "ok"))
        (λ e.
          catch (save_outcome slot (updating slot_state) image (codes "failed")) (λ u. raise e)
            (λ e'. raise e))

  -- Failures to move the data directory are only logged.
  abbrev pub set_pending : RaucSlot → RaucSlotStatus → Exec S (Unit {0})
  set_pending slot slot_state =
      catch
        (d.move_checksum_data_directory (with_status slot (pending slot_state))
          slot_state.checksum.digest)
        pure (λ e. pure tt)
      >> d.slot_status_save (with_status slot (pending slot_state))

  -- Whether the status is in a file in the slot.
  abbrev pub write_image :
      Bool → RaucSlot → RaucSlotStatus → RaucImage → ImgToSlotHandler → Exec S (Unit {0})
  write_image true slot slot_state image handler = copy_image slot slot_state image handler
  write_image false slot slot_state image handler =
      set_pending slot slot_state >> copy_image slot (pending slot_state) image handler

  abbrev pub install_loaded :
      RaucConfig
      → RaucSlot
      → Option RaucSlotStatus
      → RaucImage
      → ImgToSlotHandler
      → Exec S (Unit {0})
  install_loaded config slot none image handler = raise aborted
  install_loaded config slot (some slot_state) image handler =
      if is_some slot.mount_point
      then raise install_mounted
      else if is_up_to_date slot slot_state image
      then save_outcome slot slot_state image (codes "ok")
      else write_image (opt_eq config.statusfile_path (some (codes "per-slot"))) slot slot_state
          image handler

  unfoldable pub handle_slot_install_plan :
      RaucConfig → RaucImage → RaucSlot → ImgToSlotHandler → Exec S (Unit {0})
  handle_slot_install_plan config image target_slot handler s =
      let loaded = d.slot_status_load target_slot s in
      install_loaded config loaded.0 loaded.0.status image handler loaded.1
