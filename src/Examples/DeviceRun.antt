-- ===== src/Examples/DeviceRun.antt =====
-- Installations on the device.
use docker_yocto_kirkstone_n.Prelude.{◌≡◌, refl, [], false, none, some, codes, str_eq, opt_eq}
use docker_yocto_kirkstone_n.Exec.{Result, ok}
use docker_yocto_kirkstone_n.Slot.{RaucSlotStatus}
use docker_yocto_kirkstone_n.Update.{img_to_fs_handler}
use docker_yocto_kirkstone_n.Install.Device.{RaucInstallArgs}
use docker_yocto_kirkstone_n.Install.SlotPlan.{
  update_slot_status, pending, updating, handle_slot_install_plan,
}
use docker_yocto_kirkstone_n.Install.SlotPlan.Trace.{Trace, handle_slot_install_plan-Trace}
use docker_yocto_kirkstone_n.Install.Device.Logged.{Log, logged}
use docker_yocto_kirkstone_n.Install.Handler.{launch_and_wait_default_handler}
use docker_yocto_kirkstone_n.Examples.Board.{board, rootfs_b}
use docker_yocto_kirkstone_n.Examples.Bundles.{rootfs_image, plain_manifest}
use docker_yocto_kirkstone_n.Examples.Glob.{glob}
use docker_yocto_kirkstone_n.Examples.UpdateRun.{all_features}
use docker_yocto_kirkstone_n.Examples.PlansRun.{group_b, new_flash}
use docker_yocto_kirkstone_n.Examples.Flash.{Flash, put, no_status, flash, no_paths}

abbrev pub args : RaucInstallArgs
args = record {
  name = codes "update.raucb";
  ignore_compatible = false;
  ignore_version_limit = false;
  transaction = none;
}

abbrev written_status : RaucSlotStatus
written_status =
    update_slot_status (updating (pending no_status)) (codes "ok") plain_manifest rootfs_image args
      (codes "2026-01-01T00:00:00Z")

-- The status file was written twice, the slot once.
abbrev written : Flash
written = record {
  saved =
      put (put new_flash.saved (codes "rootfs.1") (some (pending no_status))) (codes "rootfs.1")
        (some written_status);
  holds = put new_flash.holds (codes "rootfs.1") (some (codes "d1"));
  bad = λ n. false;
}

written_slot :
    handle_slot_install_plan flash plain_manifest args none board rootfs_image rootfs_b
      img_to_fs_handler new_flash
    ≡ (ok tt, written)
unfolding handle_slot_install_plan str_eq
written_slot = refl

central_status : opt_eq board.statusfile_path (some (codes "per-slot")) ≡ false
unfolding str_eq
central_status = refl

handle_slot_install_plan-Trace_example :
    Trace
      (flash.slot_status_load rootfs_b new_flash).0
      plain_manifest
      rootfs_image
      []
      (handle_slot_install_plan
        (logged flash)
        plain_manifest
        args
        none
        board
        rootfs_image
        rootfs_b
        img_to_fs_handler
        (new_flash, [])).0
      (handle_slot_install_plan
        (logged flash)
        plain_manifest
        args
        none
        board
        rootfs_image
        rootfs_b
        img_to_fs_handler
        (new_flash, [])).1.1
handle_slot_install_plan-Trace_example =
    handle_slot_install_plan-Trace flash plain_manifest args none rootfs_image [] board
      central_status rootfs_b img_to_fs_handler new_flash

abbrev installed : Result (Unit {0}) × (Flash × Log)
installed =
    launch_and_wait_default_handler no_paths (logged flash) board args plain_manifest glob
      all_features (codes "/mnt") group_b (new_flash, [])
