-- ===== src/Examples/Flash.antt =====
-- A device whose operations succeed: the statuses of the slots in a file, the digests of their
-- contents, and which slots are marked bad.
use docker_yocto_kirkstone_n.Prelude.{
  Bool, true, false, Option, none, some, Str, codes, str_eq, if◌then◌else◌, pos,
}
use docker_yocto_kirkstone_n.Exec.{ok, Exec, pure, raise, aborted}
use docker_yocto_kirkstone_n.Slot.{RaucSlotStatus, sha256}
use docker_yocto_kirkstone_n.Install.Device.{Device, Paths}
use docker_yocto_kirkstone_n.Install.SlotPlan.{with_status}

pub record Flash : Type 0 where
  pub saved : Str → Option RaucSlotStatus
  pub holds : Str → Option Str
  pub bad : Str → Bool

abbrev pub put : {A : Type 0} → (Str → A) → Str → A → Str → A
put f n a m = if str_eq m n then a else f m

abbrev pub no_status : RaucSlotStatus
no_status = record {
  bundle_compatible = none;
  bundle_version = none;
  bundle_description = none;
  bundle_build = none;
  bundle_hash = none;
  status = none;
  checksum = record { type = sha256; digest = none; size = pos 0 };
  installed_txn = none;
  installed_timestamp = none;
  installed_count = 0;
  activated_timestamp = none;
  activated_count = 0;
}

abbrev or_default : Option RaucSlotStatus → RaucSlotStatus
or_default none = no_status
or_default (some st) = st

abbrev save : Str → Option RaucSlotStatus → Exec Flash (Unit {0})
save n none s = raise aborted s
save n (some st) s = (ok tt, record s { saved = put s.saved n (some st) })

abbrev pub flash : Device Flash
flash = record {
  artifacts = record { artifacts_init = pure tt; artifacts_prune = pure tt };
  exists = λ path s. true;
  now = λ s. codes "2026-01-01T00:00:00Z";
  slot_status_load = λ slot s. (with_status slot (or_default (s.saved slot.name)), s);
  slot_status_save = λ slot. save slot.name slot.status;
  move_checksum_data_directory = λ slot digest. pure tt;
  slot_handler = λ h image slot hook s.
      (ok tt, record s { holds = put s.holds slot.name image.checksum.digest });
  handle_artifact_install_plan = λ manifest image repo hook. pure tt;
  mark_bad = λ slot s. (ok tt, record s { bad = put s.bad slot.name true });
  boot_set_primary = λ slot s. (ok tt, record s { bad = put s.bad slot.name false });
}

abbrev pub no_paths : Paths
no_paths = record { path_is_absolute = λ path. true; build_filename = λ dir name. name }
