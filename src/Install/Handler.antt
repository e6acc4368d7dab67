-- ===== src/Install/Handler.antt =====
-- launch_and_wait_default_handler of kirkstone/local/rauc/src/install.c: the plans are made and
-- checked, the slot to be booted is marked bad, the images are written, and it is marked active.
pub mod Keeps
pub mod Marked
pub mod Safe
pub mod Done
pub mod Ordered
use docker_yocto_kirkstone_n.Prelude.{
  ℕ, ◌+◌, ◌%◌, ◌^◌, Bool, true, false, ◌&&◌, ◌||◌, not, List, [], ◌∷◌, Option, none, some, Str,
  is_some, if◌then◌else◌,
}
use docker_yocto_kirkstone_n.Exec.{
  Error, Result, ok, err, Exec, pure, raise, lift, ◌>>=◌, ◌>>◌, catch, install_failed,
  install_mounted, install_mark_bootable, install_mark_nonbootable, file_error, unset_error,
  aborted,
}
use docker_yocto_kirkstone_n.Slot.{RaucSlotStatus, RaucSlot}
use docker_yocto_kirkstone_n.Context.{RaucConfig, RArtifactRepo}
use docker_yocto_kirkstone_n.Manifest.{RaucImage, RaucManifest}
use docker_yocto_kirkstone_n.Update.{Features}
use docker_yocto_kirkstone_n.Install.Target.{TargetGroup}
use docker_yocto_kirkstone_n.Install.Plans.{
  Target, to_slot, to_repo, RImageInstallPlan, install_make_plans,
}
use docker_yocto_kirkstone_n.Install.Device.{Paths, RaucInstallArgs, Device}
use docker_yocto_kirkstone_n.Install.SlotPlan.{with_status, handle_slot_install_plan}

-- A second slot to mark is an inconsistency, at which g_error() aborts.
abbrev pub one_bootslot : Option RaucSlot → RaucSlot → Result (Option RaucSlot)
one_bootslot none slot = ok (some slot)
one_bootslot (some other) slot = err aborted

abbrev pub skips_mark : RaucSlot → Bool
skips_mark slot = is_some slot.parent || not (is_some slot.bootname)

abbrev pub bootslot_of_plan : Option RaucSlot → Target → Result (Option RaucSlot)
bootslot_of_plan bootslot (to_repo repo) = ok bootslot
bootslot_of_plan bootslot (to_slot slot handler) =
    if skips_mark slot then ok bootslot else one_bootslot bootslot slot

abbrev pub then_mark :
    Result (Option RaucSlot)
    → (Option RaucSlot → Result (Option RaucSlot))
    → Result (Option RaucSlot)
then_mark (err e) rest = err e
then_mark (ok bootslot) rest = rest bootslot

-- The loop over the plans.
unfoldable pub find_boot_mark_slot :
    List RImageInstallPlan → Option RaucSlot → Result (Option RaucSlot)
find_boot_mark_slot [] bootslot = ok bootslot
find_boot_mark_slot (plan ∷ plans) bootslot =
    then_mark (bootslot_of_plan bootslot plan.target) (find_boot_mark_slot plans)

unfoldable pub get_boot_mark_slot : List RImageInstallPlan → Result (Option RaucSlot)
get_boot_mark_slot plans = find_boot_mark_slot plans none

-- A mounted slot may be written to by an install hook only, where the configuration allows it.
unfoldable pub slot_is_unmounted : RaucSlot → RaucImage → Bool
slot_is_unmounted slot mfimage =
    not (is_some slot.mount_point || is_some slot.ext_mount_point)
    || (slot.allow_mounted && mfimage.hooks.install)

module _ {S : Type 0} (p : Paths) (d : Device S) where
  abbrev pub absolute : Str → Str → Str
  absolute bundledir path =
      if p.path_is_absolute path then path else p.build_filename bundledir path

  abbrev pub need : Bool → Error → Exec S (Unit {0})
  need true e = pure tt
  need false e = raise e

  -- The source image is not in the bundle: its outputs of converters may be. `converted` is read
  -- also where it is NULL.
  abbrev pub source_missing : Option (List Str) → Exec S (Unit {0})
  source_missing none = raise aborted
  source_missing (some []) = raise file_error
  source_missing (some (c ∷ cs)) = pure tt

  abbrev pub check_source : Bool → Option (List Str) → Exec S (Unit {0})
  check_source true converted = pure tt
  check_source false converted = source_missing converted

  -- The loop over the outputs of the converters.
  unfoldable pub check_converted : Str → List Str → Exec S (List Str)
  check_converted bundledir [] = pure []
  check_converted bundledir (c ∷ cs) =
      (λ s. need (d.exists (absolute bundledir c) s) file_error s)
      >> (check_converted bundledir cs >>= λ rest. pure (absolute bundledir c ∷ rest))

  abbrev pub check_outputs : Str → Option (List Str) → Exec S (Option (List Str))
  check_outputs bundledir none = pure none
  check_outputs bundledir (some cs) = check_converted bundledir cs >>= λ l. pure (some l)

  -- An image without a file is for an install hook.
  abbrev pub check_sources : Str → RaucImage → Option Str → Exec S RaucImage
  check_sources bundledir image none = if image.hooks.install then pure image else raise aborted
  check_sources bundledir image (some filename) =
      (λ s. check_source (d.exists (absolute bundledir filename) s) image.converted s)
      >> (check_outputs bundledir image.converted >>= λ converted.
          pure
            (record image { filename = some (absolute bundledir filename); converted = converted }))

  abbrev pub check_target : RaucImage → Target → Exec S (Unit {0})
  check_target image (to_slot slot handler) =
      (λ s. need (d.exists slot.device s) file_error s)
      >> need (slot_is_unmounted slot image) install_mounted
  check_target image (to_repo repo) = λ s. need (d.exists repo.path s) file_error s

  abbrev pub pre_install_check : Str → RImageInstallPlan → Exec S RImageInstallPlan
  pre_install_check bundledir plan =
      check_sources bundledir plan.image plan.image.filename >>= λ image.
      check_target image plan.target >> pure (record plan { image = image })

  -- The plans with the paths of their images.
  unfoldable pub pre_install_checks : Str → List RImageInstallPlan → Exec S (List RImageInstallPlan)
  pre_install_checks bundledir [] = pure []
  pre_install_checks bundledir (plan ∷ plans) = pre_install_check bundledir plan >>= λ checked.
      pre_install_checks bundledir plans >>= λ rest. pure (checked ∷ rest)

  -- r_mark_active of src/mark.c; the message of the error is read.
  abbrev pub activate_error : Error → Error
  activate_error unset_error = aborted
  activate_error aborted = aborted
  activate_error e = install_mark_bootable

  abbrev pub activated : RaucSlotStatus → Str → RaucSlotStatus
  activated st now = record st {
    activated_timestamp = some now;
    activated_count = (st.activated_count + 1) % 2 ^ 32;
  }

  abbrev pub save_activated : RaucSlot → Option RaucSlotStatus → Exec S (Unit {0})
  save_activated slot none = raise aborted
  save_activated slot (some st) = λ s.
      catch (d.slot_status_save (with_status slot (activated st (d.now s)))) pure (λ e. pure tt) s

  unfoldable pub mark_active : RaucSlot → Exec S (Unit {0})
  mark_active slot s =
      let loaded = d.slot_status_load slot s in
      catch (d.boot_set_primary loaded.0) (λ u. save_activated loaded.0 loaded.0.status)
        (λ e. raise (activate_error e)) loaded.1

  abbrev pub nonbootable_error : Error → Error
  nonbootable_error aborted = aborted
  nonbootable_error e = install_mark_nonbootable

  abbrev pub mark_target_bad : Option RaucSlot → Exec S (Unit {0})
  mark_target_bad none = pure tt
  mark_target_bad (some slot) = catch (d.mark_bad slot) pure (λ e. raise (nonbootable_error e))

  abbrev pub mark_target_active : Bool → Option RaucSlot → Exec S (Unit {0})
  mark_target_active activate none = pure tt
  mark_target_active true (some slot) = mark_active slot
  mark_target_active false (some slot) = pure tt

  abbrev pub hook_path : Str → Option Str → Option Str
  hook_path bundledir none = none
  hook_path bundledir (some name) = some (p.build_filename bundledir name)

  module _ (config : RaucConfig) (args : RaucInstallArgs) (manifest : RaucManifest) where
    abbrev pub handle_plan : Option Str → RImageInstallPlan → Exec S (Unit {0})
    handle_plan hook_name plan = elim plan.target [
      | to_slot slot handler ↦
          handle_slot_install_plan d manifest args hook_name config plan.image slot handler
      | to_repo repo ↦ d.handle_artifact_install_plan manifest plan.image repo hook_name
    ]

    -- The loop over the plans.
    unfoldable pub handle_plans : Option Str → List RImageInstallPlan → Exec S (Unit {0})
    handle_plans hook_name [] = pure tt
    handle_plans hook_name (plan ∷ plans) =
        handle_plan hook_name plan >> handle_plans hook_name plans

    -- What follows the checks of the plans.
    unfoldable pub update_slots : Str → Option RaucSlot → List RImageInstallPlan → Exec S (Unit {0})
    update_slots bundledir boot_mark_slot plans =
        mark_target_bad boot_mark_slot
        >> handle_plans (hook_path bundledir manifest.hook_name) plans
        >> d.artifacts.artifacts_prune
        >> mark_target_active config.activate_installed boot_mark_slot

    unfoldable pub launch_and_wait_default_handler :
        (Str → Str → Bool) → Features → Str → TargetGroup → Exec S (Unit {0})
    launch_and_wait_default_handler pattern_match f bundledir target_group =
        install_make_plans pattern_match f d.artifacts config manifest target_group >>= λ plans.
        lift (get_boot_mark_slot plans) >>= λ boot_mark_slot.
        pre_install_checks bundledir plans >>= λ checked.
        update_slots bundledir boot_mark_slot checked
