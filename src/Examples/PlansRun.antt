-- ===== src/Examples/PlansRun.antt =====
-- The plans for a bundle of the board.
use docker_yocto_kirkstone_n.Prelude.{
  ◌≡◌, ◌≢◌, refl, false, [], ◌∷◌, none, some, codes, str_eq, find_first, All,
}
use docker_yocto_kirkstone_n.Exec.{ok}
use docker_yocto_kirkstone_n.Slot.{remove_fast, split_last}
use docker_yocto_kirkstone_n.Manifest.{RaucManifest}
use docker_yocto_kirkstone_n.Update.{
  updatepairs, find_handler, get_update_handler, img_to_fs_handler,
}
use docker_yocto_kirkstone_n.Install.Target.{TargetGroup}
use docker_yocto_kirkstone_n.Install.Plans.{
  to_slot, RImageInstallPlan, collect_image_classes, get_all_manifest_slot_classes, find_image,
  lookup_target, slot_plans, artifact_plans, install_make_plans,
}
use docker_yocto_kirkstone_n.Install.Plans.Sound.{Planned, install_make_plans_sound}
use docker_yocto_kirkstone_n.Examples.Board.{board, rootfs_b}
use docker_yocto_kirkstone_n.Examples.Bundles.{rootfs_image, image_for, plain_manifest}
use docker_yocto_kirkstone_n.Examples.Glob.{glob}
use docker_yocto_kirkstone_n.Examples.UpdateRun.{all_features}
use docker_yocto_kirkstone_n.Examples.Flash.{Flash, flash}

abbrev pub group_b : TargetGroup
group_b = (codes "rootfs", rootfs_b) ∷ []

abbrev pub new_flash : Flash
new_flash = record { saved = λ n. none; holds = λ n. none; bad = λ n. false }

abbrev pub rootfs_plan : RImageInstallPlan
rootfs_plan = record { image = rootfs_image; target = to_slot rootfs_b img_to_fs_handler }

-- An image for another variant comes first.
abbrev variants_manifest : RaucManifest
variants_manifest = record plain_manifest {
  images =
      image_for (codes "rootfs") (some (codes "big")) (some (codes "big.ext4")) ∷ rootfs_image ∷ [];
}

pub planned :
    install_make_plans glob all_features flash.artifacts board plain_manifest group_b new_flash
    ≡ (ok (rootfs_plan ∷ []), new_flash)
unfolding install_make_plans slot_plans artifact_plans get_all_manifest_slot_classes
    collect_image_classes remove_fast split_last find_image lookup_target find_first str_eq
    get_update_handler updatepairs find_handler glob
planned = refl

planned_variants :
    install_make_plans glob all_features flash.artifacts board variants_manifest group_b new_flash
    ≡ (ok (rootfs_plan ∷ []), new_flash)
unfolding install_make_plans slot_plans artifact_plans get_all_manifest_slot_classes
    collect_image_classes remove_fast split_last find_image lookup_target find_first str_eq
    get_update_handler updatepairs find_handler glob
planned_variants = refl

install_make_plans_sound_example :
    All (Planned glob all_features board variants_manifest group_b) (rootfs_plan ∷ [])
    × (rootfs_plan ∷ [] ≢ [])
install_make_plans_sound_example =
    install_make_plans_sound glob all_features board variants_manifest group_b flash.artifacts
      (rootfs_plan ∷ []) new_flash new_flash planned_variants
