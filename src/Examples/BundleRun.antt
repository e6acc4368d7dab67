-- ===== src/Examples/BundleRun.antt =====
-- Bundles for the board and for another system.
use docker_yocto_kirkstone_n.Prelude.{◌≡◌, false, none, some, codes}
use docker_yocto_kirkstone_n.Exec.{pure}
use docker_yocto_kirkstone_n.Manifest.{RaucManifest}
use docker_yocto_kirkstone_n.Install.Bundle.{Bundles}
use docker_yocto_kirkstone_n.Install.Bundle.Refused.{Refused}
use docker_yocto_kirkstone_n.Examples.Bundles.{plain_manifest}
use docker_yocto_kirkstone_n.Examples.PlansRun.{new_flash}
use docker_yocto_kirkstone_n.Examples.Flash.{Flash}

abbrev foreign : RaucManifest
foreign = record plain_manifest { update_compatible = some (codes "other") }

abbrev bundles : Bundles Flash
bundles = record {
  has_mounted_bundle = λ s. false;
  update_external_mount_points = λ slots. pure slots;
  check_bundle = λ name. pure (record { manifest = none; was_encrypted = false });
  mount_bundle = λ bundle. pure (codes "/mnt", foreign);
  umount_bundle = λ bundle s. s;
  run_handler = λ handler mount_point manifest group. pure tt;
  run_install_check = λ manifest mount_point. pure tt;
  launch_and_wait_custom_handler = λ mount_point manifest group. pure tt;
}

-- The slots hold what they held.
abbrev AsNew : Flash → Type 0
AsNew s = s.holds ≡ new_flash.holds
