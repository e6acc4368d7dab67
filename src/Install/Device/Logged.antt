-- ===== src/Install/Device/Logged.antt =====
-- A device that logs what the installation of kirkstone/local/rauc/src/install.c has done to it: every
-- status that is saved, image that is written, artifact that is installed and call of the boot
-- selection, with its success. The operations themselves are those of any device.
use docker_yocto_kirkstone_n.Prelude.{Bool, true, false, List, ◌∷◌, Option, Str}
use docker_yocto_kirkstone_n.Exec.{Result, ok, err, Exec}
use docker_yocto_kirkstone_n.Slot.{RaucSlotStatus}
use docker_yocto_kirkstone_n.Context.{RArtifactRepo}
use docker_yocto_kirkstone_n.Manifest.{RaucImage}
use docker_yocto_kirkstone_n.Install.Device.{Device}

pub data Event : Type 0 where
  -- r_slot_status_save: the name of the slot and its status
  saved : Str → Option RaucSlotStatus → Bool → Event
  -- an update handler: the name of the slot and the image
  wrote : Str → RaucImage → Bool → Event
  installed_artifact : RArtifactRepo → RaucImage → Bool → Event
  marked_bad : Str → Bool → Event
  made_primary : Str → Bool → Event

-- The last event is the first of the list.
abbrev pub Log : Type 0
Log = List Event

abbrev pub succeeds : Result (Unit {0}) → Bool
succeeds (ok u) = true
succeeds (err e) = false

module _ {S : Type 0} where
  abbrev pub noted : (Bool → Event) → Exec S (Unit {0}) → Exec (S × Log) (Unit {0})
  noted event m s = let r = m s.0 in (r.0, (r.1, event (succeeds r.0) ∷ s.1))

  abbrev pub unnoted : Exec S (Unit {0}) → Exec (S × Log) (Unit {0})
  unnoted m s = let r = m s.0 in (r.0, (r.1, s.1))

  abbrev pub logged : Device S → Device (S × Log)
  logged d = record {
    artifacts = record {
      artifacts_init = unnoted d.artifacts.artifacts_init;
      artifacts_prune = unnoted d.artifacts.artifacts_prune;
    };
    exists = λ path s. d.exists path s.0;
    now = λ s. d.now s.0;
    slot_status_load = λ slot s. let r = d.slot_status_load slot s.0 in (r.0, (r.1, s.1));
    slot_status_save = λ slot. noted (saved slot.name slot.status) (d.slot_status_save slot);
    move_checksum_data_directory =
        λ slot digest. unnoted (d.move_checksum_data_directory slot digest);
    slot_handler = λ handler image slot hook.
        noted (wrote slot.name image) (d.slot_handler handler image slot hook);
    handle_artifact_install_plan = λ manifest image repo hook.
        noted (installed_artifact repo image)
          (d.handle_artifact_install_plan manifest image repo hook);
    mark_bad = λ slot. noted (marked_bad slot.name) (d.mark_bad slot);
    boot_set_primary = λ slot. noted (made_primary slot.name) (d.boot_set_primary slot);
  }
