-- ===== src/Install/Plans.antt =====
-- r_install_make_plans (kirkstone/local/rauc/src/install.c): which image goes to which slot or
-- repository.
pub mod Variant
pub mod Sound
use docker_yocto_kirkstone_n.Prelude.{
  Bool, true, false, not, List, [], ◌∷◌, ◌++◌, Option, none, some, Str, str_eq, opt_eq, is_some,
  if◌then◌else◌, find_first,
}
use docker_yocto_kirkstone_n.Exec.{
  Error, Result, ok, err, Exec, pure, raise, lift, ◌>>=◌, ◌>>◌, install_failed,
}
use docker_yocto_kirkstone_n.Slot.{RaucSlot, remove_fast}
use docker_yocto_kirkstone_n.Context.{RaucConfig, RArtifactRepo}
use docker_yocto_kirkstone_n.Manifest.{RaucImage, RaucManifest}
use docker_yocto_kirkstone_n.Update.{ImgToSlotHandler, Features, get_update_handler}
use docker_yocto_kirkstone_n.Install.Target.{TargetGroup}

-- The target slot of a plan with its handler, or its target repository.
pub data Target : Type 0 where
  to_slot : RaucSlot → ImgToSlotHandler → Target
  to_repo : RArtifactRepo → Target

pub record RImageInstallPlan : Type 0 where
  pub image : RaucImage
  pub target : Target

abbrev add_class : Option Str → List Str → Str → List Str
add_class none slotclasses key = remove_fast slotclasses key ++ (key ∷ [])
add_class (some artifact) slotclasses key = slotclasses

-- The loop over the images.
unfoldable pub collect_image_classes : List Str → List RaucImage → List Str
collect_image_classes slotclasses [] = slotclasses
collect_image_classes slotclasses (image ∷ images) =
    collect_image_classes (add_class image.artifact slotclasses image.slotclass) images

unfoldable pub get_all_manifest_slot_classes : RaucManifest → List Str
get_all_manifest_slot_classes manifest = collect_image_classes [] manifest.images

-- An image of the class: one for all variants is kept if there is none yet, one for the variant of
-- the system ends the loop.
abbrev pub by_variant :
    Option Str
    → Option Str
    → RaucImage
    → Option RaucImage
    → (Option RaucImage → Option RaucImage)
    → Option RaucImage
by_variant system_variant none image none rest = rest (some image)
by_variant system_variant none image (some kept) rest = rest (some kept)
by_variant system_variant (some variant) image matching rest =
    if opt_eq (some variant) system_variant then some image else rest matching

-- The loop over the images for a class.
unfoldable pub find_image : Option Str → Str → List RaucImage → Option RaucImage → Option RaucImage
find_image system_variant cls [] matching = matching
find_image system_variant cls (image ∷ images) matching =
    let rest = find_image system_variant cls images in
    if str_eq image.slotclass cls
    then by_variant system_variant image.variant image matching rest
    else rest matching

-- g_hash_table_lookup(target_group, key)
abbrev pub entry_slot : Option (Str × RaucSlot) → Option RaucSlot
entry_slot none = none
entry_slot (some (key, slot)) = some slot

unfoldable pub lookup_target : TargetGroup → Str → Option RaucSlot
lookup_target target_group key = entry_slot (find_first (λ e. str_eq e.0 key) target_group)

unfoldable pub lookup_repo : List RArtifactRepo → Str → Option RArtifactRepo
lookup_repo repos key = find_first (λ r. str_eq r.name key) repos

abbrev pub prepend :
    RImageInstallPlan → Result (List RImageInstallPlan) → Result (List RImageInstallPlan)
prepend plan (err e) = err e
prepend plan (ok plans) = ok (plan ∷ plans)

-- What is done first fails first.
abbrev pub continue :
    Result RImageInstallPlan → Result (List RImageInstallPlan) → Result (List RImageInstallPlan)
continue (err e) rest = err e
continue (ok plan) rest = prepend plan rest

abbrev pub handled : RaucImage → RaucSlot → Result ImgToSlotHandler → Result RImageInstallPlan
handled image slot (err e) = err e
handled image slot (ok handler) = ok (record { image = image; target = to_slot slot handler })

-- The operations of src/artifacts.c that planning calls.
pub record Artifacts (S : Type 0) : Type 0 where
  pub artifacts_init : Exec S (Unit {0})
  pub artifacts_prune : Exec S (Unit {0})

module _ (pattern_match : Str → Str → Bool) (f : Features) where
  abbrev pub plan_for_slot : RaucImage → Option RaucSlot → Result RImageInstallPlan
  plan_for_slot image none = err install_failed
  plan_for_slot image (some slot) =
      if slot.readonly
      then err install_failed
      else handled image slot (get_update_handler pattern_match f image slot)

  abbrev pub plan_for_image : TargetGroup → Option RaucImage → Result RImageInstallPlan
  plan_for_image target_group none = err install_failed
  plan_for_image target_group (some image) =
      plan_for_slot image (lookup_target target_group image.slotclass)

  -- The loop over the classes.
  unfoldable pub slot_plans :
      RaucConfig → RaucManifest → TargetGroup → List Str → Result (List RImageInstallPlan)
  slot_plans config manifest target_group [] = ok []
  slot_plans config manifest target_group (cls ∷ slotclasses) =
      continue
        (plan_for_image target_group (find_image config.system_variant cls manifest.images none))
        (slot_plans config manifest target_group slotclasses)

abbrev pub plan_for_repo : RaucImage → Option RArtifactRepo → Result RImageInstallPlan
plan_for_repo image none = err install_failed
plan_for_repo image (some repo) = ok (record { image = image; target = to_repo repo })

-- The loop over the images that are artifacts.
unfoldable pub artifact_plans :
    List RArtifactRepo → List RaucImage → Result (List RImageInstallPlan)
artifact_plans repos [] = ok []
artifact_plans repos (image ∷ images) =
    let rest = artifact_plans repos images in
    if is_some image.artifact
    then continue (plan_for_repo image (lookup_repo repos image.slotclass)) rest
    else rest

abbrev pub some_plans : List RImageInstallPlan → Result (List RImageInstallPlan)
some_plans [] = err install_failed
some_plans (plan ∷ plans) = ok (plan ∷ plans)

module _ {S : Type 0} (pattern_match : Str → Str → Bool) (f : Features) (a : Artifacts S) where
  unfoldable pub install_make_plans :
      RaucConfig → RaucManifest → TargetGroup → Exec S (List RImageInstallPlan)
  install_make_plans config manifest target_group =
      lift (
        slot_plans pattern_match f config manifest target_group
          (get_all_manifest_slot_classes manifest))
      >>= λ for_slots.
          a.artifacts_init
          >> a.artifacts_prune
          >> (lift (artifact_plans config.artifact_repos manifest.images) >>= λ for_repos.
              lift (some_plans (for_slots ++ for_repos)))
