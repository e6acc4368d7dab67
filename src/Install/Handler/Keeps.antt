-- ===== src/Install/Handler/Keeps.antt =====
-- What handle_slot_install_plan and the loop over the plans (kirkstone/local/rauc/src/install.c) keep
-- because each operation that they call keeps it, and what the checks before them keep.
use docker_yocto_kirkstone_n.Prelude.{
  Bool, true, false, List, [], ◌∷◌, ◌++◌, Option, none, some, Str, codes, opt_eq, is_some,
  if◌then◌else◌,
}
use docker_yocto_kirkstone_n.Exec.{
  Error, Result, ok, err, Exec, pure, raise, lift, next, ◌>>=◌, ◌>>◌, catch, aborted,
  install_mounted, file_error,
}
use docker_yocto_kirkstone_n.Exec.Keeps.{Keeps, >>=-Keeps, catch-Keeps, if-Keeps}
use docker_yocto_kirkstone_n.Slot.{RaucSlotStatus, RaucSlot}
use docker_yocto_kirkstone_n.Context.{RaucConfig, RArtifactRepo}
use docker_yocto_kirkstone_n.Manifest.{RaucImage, RaucManifest}
use docker_yocto_kirkstone_n.Update.{ImgToSlotHandler, Features}
use docker_yocto_kirkstone_n.Install.Target.{TargetGroup}
use docker_yocto_kirkstone_n.Install.Plans.{
  Target, to_slot, to_repo, RImageInstallPlan, install_make_plans, slot_plans, artifact_plans,
  some_plans, get_all_manifest_slot_classes,
}
use docker_yocto_kirkstone_n.Install.Device.{Paths, RaucInstallArgs, Device}
use docker_yocto_kirkstone_n.Install.SlotPlan.{
  is_up_to_date, update_slot_status, pending, updating, with_status, save_outcome, copy_image,
  set_pending, write_image, install_loaded, handle_slot_install_plan,
}
use docker_yocto_kirkstone_n.Install.Handler.{
  need, absolute, check_source, check_converted, check_outputs, check_sources, check_target,
  slot_is_unmounted, pre_install_check, pre_install_checks, handle_plan, handle_plans,
}

module _ {S : Type 0} (d : Device S) (P : S → Type 0) where
  -- The operations that write images and statuses keep the property.
  pub record WriteKeeps : Type 0 where
    pub load : (slot : RaucSlot) (s : S) → P s → P (d.slot_status_load slot s).1
    pub save : (slot : RaucSlot) → Keeps P (d.slot_status_save slot)
    pub move : (slot : RaucSlot) (o : Option Str) → Keeps P (d.move_checksum_data_directory slot o)
    pub write :
        (h : ImgToSlotHandler) (image : RaucImage) (slot : RaucSlot) (hook : Option Str)
        → Keeps P (d.slot_handler h image slot hook)
    pub artifact :
        (m : RaucManifest) (image : RaucImage) (repo : RArtifactRepo) (hook : Option Str)
        → Keeps P (d.handle_artifact_install_plan m image repo hook)
    pub prune : Keeps P (d.artifacts.artifacts_prune)

  module _ (k : WriteKeeps) (config : RaucConfig) (args : RaucInstallArgs) (manifest : RaucManifest)
      (hook : Option Str) where
    save_outcome-Keeps :
        (slot : RaucSlot) (st : RaucSlotStatus) (image : RaucImage) (status : Str)
        → Keeps P (save_outcome d manifest args hook slot st image status)
    save_outcome-Keeps slot st image status s p =
        k.save (with_status slot (update_slot_status st status manifest image args (d.now s))) s p

    copy_image-Keeps :
        (slot : RaucSlot) (st : RaucSlotStatus) (image : RaucImage) (handler : ImgToSlotHandler)
        → Keeps P (copy_image d manifest args hook slot st image handler)
    copy_image-Keeps slot st image handler =
        let written = with_status slot (updating st) in
        let failed = save_outcome d manifest args hook slot (updating st) image (codes "failed") in
        catch-Keeps P (d.slot_handler handler image written hook)
          (λ u. save_outcome d manifest args hook slot (updating st) image (codes "ok"))
          (λ e. catch failed (λ u. raise e) (λ e'. raise e)) (k.write handler image written hook)
          (λ u. save_outcome-Keeps slot (updating st) image (codes "ok"))
          (λ e.
            catch-Keeps P failed (λ u. raise e) (λ e'. raise e)
              (save_outcome-Keeps slot (updating st) image (codes "failed")) (λ u s p. p)
              (λ e' s p. p))

    set_pending-Keeps :
        (slot : RaucSlot) (st : RaucSlotStatus) → Keeps P (set_pending d manifest args hook slot st)
    set_pending-Keeps slot st =
        let marked = with_status slot (pending st) in
        let moved = d.move_checksum_data_directory marked st.checksum.digest in
        >>=-Keeps P (catch moved pure (λ e. pure tt)) (λ u. d.slot_status_save marked)
          (catch-Keeps P moved pure (λ e. pure tt) (k.move marked st.checksum.digest) (λ u s p. p)
            (λ e s p. p))
          (λ u. k.save marked)

    write_image-Keeps :
        (local : Bool) (slot : RaucSlot) (st : RaucSlotStatus) (image : RaucImage)
        (handler : ImgToSlotHandler)
        → Keeps P (write_image d manifest args hook local slot st image handler)
    write_image-Keeps true slot st image handler = copy_image-Keeps slot st image handler
    write_image-Keeps false slot st image handler =
        >>=-Keeps P (set_pending d manifest args hook slot st)
          (λ u. copy_image d manifest args hook slot (pending st) image handler)
          (set_pending-Keeps slot st) (λ u. copy_image-Keeps slot (pending st) image handler)

    install_loaded-Keeps :
        (slot : RaucSlot) (o : Option RaucSlotStatus) (image : RaucImage)
        (handler : ImgToSlotHandler)
        → Keeps P (install_loaded d manifest args hook config slot o image handler)
    install_loaded-Keeps slot none image handler = λ s p. p
    install_loaded-Keeps slot (some st) image handler =
        let local = opt_eq config.statusfile_path (some (codes "per-slot")) in
        let skipped = save_outcome d manifest args hook slot st image (codes "ok") in
        let written = write_image d manifest args hook local slot st image handler in
        if-Keeps P (is_some slot.mount_point) (raise install_mounted)
          (if is_up_to_date slot st image then skipped else written) (λ s p. p)
          (if-Keeps P (is_up_to_date slot st image) skipped written
            (save_outcome-Keeps slot st image (codes "ok"))
            (write_image-Keeps local slot st image handler))

    slot_plan-Keeps :
        (image : RaucImage) (slot : RaucSlot) (handler : ImgToSlotHandler)
        → Keeps P (handle_slot_install_plan d manifest args hook config image slot handler)
    unfolding handle_slot_install_plan
    slot_plan-Keeps image slot handler s p =
        install_loaded-Keeps (d.slot_status_load slot s).0 (d.slot_status_load slot s).0.status
          image handler (d.slot_status_load slot s).1 (k.load slot s p)

    module _ (paths : Paths) where
      plan-Keeps :
          (image : RaucImage) (target : Target)
          → Keeps P (
              handle_plan paths d config args manifest hook
                (record { image = image; target = target }))
      plan-Keeps image (to_slot slot handler) = slot_plan-Keeps image slot handler
      plan-Keeps image (to_repo repo) = k.artifact manifest image repo hook

      pub plans-Keeps :
          (plans : List RImageInstallPlan)
          → Keeps P (handle_plans paths d config args manifest hook plans)
      unfolding handle_plans
      plans-Keeps [] = λ s p. p
      plans-Keeps (plan ∷ plans) =
          >>=-Keeps P (handle_plan paths d config args manifest hook plan)
            (λ u. handle_plans paths d config args manifest hook plans)
            (plan-Keeps plan.image plan.target) (λ u. plans-Keeps plans)

  module _ (paths : Paths) where
    need-Keeps : (b : Bool) (e : Error) → Keeps P (need paths d b e)
    need-Keeps true e = λ s p. p
    need-Keeps false e = λ s p. p

    source-Keeps : (b : Bool) (o : Option (List Str)) → Keeps P (check_source paths d b o)
    source-Keeps true o = λ s p. p
    source-Keeps false none = λ s p. p
    source-Keeps false (some []) = λ s p. p
    source-Keeps false (some (c ∷ cs)) = λ s p. p

    converted-Keeps :
        (bundledir : Str) (cs : List Str) → Keeps P (check_converted paths d bundledir cs)
    unfolding check_converted
    converted-Keeps bundledir [] = λ s p. p
    converted-Keeps bundledir (c ∷ cs) =
        let path = absolute paths d bundledir c in
        let rest = check_converted paths d bundledir cs in
        >>=-Keeps P (λ s. need paths d (d.exists path s) file_error s)
          (λ u. rest >>= λ l. pure (path ∷ l)) (λ s. need-Keeps (d.exists path s) file_error s)
          (λ u. >>=-Keeps P rest (λ l. pure (path ∷ l)) (converted-Keeps bundledir cs) (λ l s p. p))

    outputs-Keeps :
        (bundledir : Str) (o : Option (List Str)) → Keeps P (check_outputs paths d bundledir o)
    outputs-Keeps bundledir none = λ s p. p
    outputs-Keeps bundledir (some cs) =
        >>=-Keeps P (check_converted paths d bundledir cs) (λ l. pure (some l))
          (converted-Keeps bundledir cs) (λ l s p. p)

    sources-Keeps :
        (bundledir : Str) (image : RaucImage) (o : Option Str)
        → Keeps P (check_sources paths d bundledir image o)
    sources-Keeps bundledir image none =
        if-Keeps P image.hooks.install (pure image) (raise aborted) (λ s p. p) (λ s p. p)
    sources-Keeps bundledir image (some filename) =
        let path = absolute paths d bundledir filename in
        let outputs = check_outputs paths d bundledir image.converted in
        let renamed = λ (o : Option (List Str)).
          pure {S = S} (record image { filename = some path; converted = o }) in
        >>=-Keeps P (λ s. check_source paths d (d.exists path s) image.converted s)
          (λ u. outputs >>= renamed) (λ s. source-Keeps (d.exists path s) image.converted s)
          (λ u. >>=-Keeps P outputs renamed (outputs-Keeps bundledir image.converted) (λ l s p. p))

    target-Keeps :
        (image : RaucImage) (target : Target) → Keeps P (check_target paths d image target)
    target-Keeps image (to_slot slot handler) =
        >>=-Keeps P (λ s. need paths d (d.exists slot.device s) file_error s)
          (λ u. need paths d (slot_is_unmounted slot image) install_mounted)
          (λ s. need-Keeps (d.exists slot.device s) file_error s)
          (λ u. need-Keeps (slot_is_unmounted slot image) install_mounted)
    target-Keeps image (to_repo repo) = λ s. need-Keeps (d.exists repo.path s) file_error s

    check-Keeps :
        (bundledir : Str) (plan : RImageInstallPlan)
        → Keeps P (pre_install_check paths d bundledir plan)
    check-Keeps bundledir plan =
        let target = λ (image : RaucImage). check_target paths d image plan.target in
        let finish = λ (image : RaucImage). pure {S = S} (record plan { image = image }) in
        >>=-Keeps P (check_sources paths d bundledir plan.image plan.image.filename)
          (λ image. target image >> finish image)
          (sources-Keeps bundledir plan.image plan.image.filename)
          (λ image.
            >>=-Keeps P (target image) (λ u. finish image) (target-Keeps image plan.target)
              (λ u s p. p))

    pub pre_install_checks-Keeps :
        (bundledir : Str) (plans : List RImageInstallPlan)
        → Keeps P (pre_install_checks paths d bundledir plans)
    unfolding pre_install_checks
    pre_install_checks-Keeps bundledir [] = λ s p. p
    pre_install_checks-Keeps bundledir (plan ∷ plans) =
        let rest = pre_install_checks paths d bundledir plans in
        >>=-Keeps P (pre_install_check paths d bundledir plan)
          (λ checked. rest >>= λ l. pure (checked ∷ l)) (check-Keeps bundledir plan)
          (λ checked.
            >>=-Keeps P rest (λ l. pure (checked ∷ l)) (pre_install_checks-Keeps bundledir plans)
              (λ l s p. p))

  pub make_plans-Keeps :
      (pattern_match : Str → Str → Bool) (f : Features) (config : RaucConfig)
      (manifest : RaucManifest) (group : TargetGroup)
      → Keeps P (d.artifacts.artifacts_init)
      → Keeps P (d.artifacts.artifacts_prune)
      → Keeps P (install_make_plans pattern_match f d.artifacts config manifest group)
  unfolding install_make_plans
  make_plans-Keeps pattern_match f config manifest group init prune s p =
      by_slots
        (slot_plans pattern_match f config manifest group (get_all_manifest_slot_classes manifest))
    where
      for_repos : Exec S (List RImageInstallPlan)
      for_repos = lift (artifact_plans config.artifact_repos manifest.images)

      finish : List RImageInstallPlan → List RImageInstallPlan → Exec S (List RImageInstallPlan)
      finish slots repos = lift (some_plans (slots ++ repos))

      by_slots :
          (r : Result (List RImageInstallPlan))
          → P
              (next r
                (λ slots.
                  d.artifacts.artifacts_init
                  >> d.artifacts.artifacts_prune
                  >> (for_repos >>= finish slots))
                s).1
      by_slots (err e) = p
      by_slots (ok slots) =
          >>=-Keeps P (d.artifacts.artifacts_init >> d.artifacts.artifacts_prune)
            (λ u. for_repos >>= finish slots)
            (>>=-Keeps P d.artifacts.artifacts_init (λ u. d.artifacts.artifacts_prune) init
              (λ u. prune))
            (λ u. >>=-Keeps P for_repos (finish slots) (λ s p. p) (λ l s p. p)) s p
