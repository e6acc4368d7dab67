-- ===== src/Install/Plans/Sound.antt =====
-- The plans of r_install_make_plans (kirkstone/local/rauc/src/install.c) against the target group and
-- the images of the manifest.
use docker_yocto_kirkstone_n.Prelude.{
  ◌≡◌, ◌≢◌, refl, sym, ap, inl, inr, Bool, true, false, List, [], ◌∷◌, ◌++◌, Option, none, some,
  Str, str_eq, str_eq_iff, is_some, if◌then◌else◌, In, All, All-append, find_first,
  find_first_sound,
}
use mathlib.Core.Path.{subst}
use docker_yocto_kirkstone_n.Exec.{Result, ok, err, lift, next, ◌>>=◌, ◌>>◌, install_failed}
use docker_yocto_kirkstone_n.Exec.Accepts.{>>=-ok}
use docker_yocto_kirkstone_n.Slot.{RaucSlot}
use docker_yocto_kirkstone_n.Context.{RaucConfig, RArtifactRepo}
use docker_yocto_kirkstone_n.Manifest.{RaucImage, RaucManifest}
use docker_yocto_kirkstone_n.Update.{ImgToSlotHandler, Features, get_update_handler}
use docker_yocto_kirkstone_n.Install.Target.{TargetGroup}
use docker_yocto_kirkstone_n.Install.Plans.{
  Target, to_slot, to_repo, RImageInstallPlan, get_all_manifest_slot_classes, find_image,
  entry_slot, lookup_target, lookup_repo, continue, handled, Artifacts, plan_for_slot,
  plan_for_image, slot_plans, plan_for_repo, artifact_plans, some_plans, install_make_plans,
}
use docker_yocto_kirkstone_n.Install.Plans.Variant.{Best, find_image_sound}

lookup_target_sound :
    (group : TargetGroup) (key : Str) (slot : RaucSlot)
    → lookup_target group key ≡ some slot
    → In (key, slot) group
unfolding lookup_target
lookup_target_sound group key slot h = from_entry (find_first _ group) refl h
  where
    from_entry :
        (o : Option (Str × RaucSlot))
        → find_first (λ e. str_eq e.0 key) group ≡ o
        → entry_slot o ≡ some slot
        → In (key, slot) group
    from_entry none e q = cc
    from_entry (some (k, x)) e q =
        let (m, t) = find_first_sound (λ y. str_eq y.0 key) group e in
        subst (λ y. In y group) (pair_eq ((str_eq_iff k key).0 t) (the_slot q)) m
      where
        pair_eq : k ≡ key → x ≡ slot → ◌≡◌ {A = Str × RaucSlot} (k, x) (key, slot)
        pair_eq a b = cc

        the_slot : some x ≡ some slot → x ≡ slot
        the_slot a = cc

module _ (pattern_match : Str → Str → Bool) (f : Features) (config : RaucConfig)
    (manifest : RaucManifest) (group : TargetGroup) where
  -- An image for its slot: the best of its class, in the slot of its class in the target group,
  -- which is not read-only, by the handler for the two.
  abbrev pub ForSlot : RaucImage → RaucSlot → ImgToSlotHandler → Type 0
  ForSlot image slot handler =
      Best config.system_variant image.slotclass manifest.images image
      × In (image.slotclass, slot) group
      × (slot.readonly ≡ false)
      × (get_update_handler pattern_match f image slot ≡ ok handler)

  -- An artifact for the repository with the name of its class.
  abbrev pub ForRepo : RaucImage → RArtifactRepo → Type 0
  ForRepo image repo =
      (is_some image.artifact ≡ true)
      × In repo config.artifact_repos
      × (repo.name ≡ image.slotclass)

  abbrev pub OnTarget : RaucImage → Target → Type 0
  OnTarget image (to_slot slot handler) = ForSlot image slot handler
  OnTarget image (to_repo repo) = ForRepo image repo

  abbrev pub Planned : RImageInstallPlan → Type 0
  Planned plan = In plan.image manifest.images × OnTarget plan.image plan.target

  slot_plan :
      (image : RaucImage) (cls : Str) (o : Option RaucSlot) (plan : RImageInstallPlan)
      → In image manifest.images
        × (image.slotclass ≡ cls)
        × Best config.system_variant cls manifest.images image
      → lookup_target group image.slotclass ≡ o
      → plan_for_slot pattern_match f image o ≡ ok plan
      → Planned plan
  slot_plan image cls none plan b e h = cc
  slot_plan image cls (some slot) plan (m, c, b) e h = by_readonly slot.readonly refl h
    where
      by_handler :
          (r : Result ImgToSlotHandler)
          → slot.readonly ≡ false
          → get_update_handler pattern_match f image slot ≡ r
          → handled image slot r ≡ ok plan
          → Planned plan
      by_handler (err x) ro eh q = cc
      by_handler (ok handler) ro eh q = subst Planned (the_plan q) (
        m,
        (
          subst (λ k. Best config.system_variant k manifest.images image) (sym c) b,
          lookup_target_sound group image.slotclass slot e,
          ro,
          eh,
        ),
      )
        where
          the_plan :
              ok (record { image = image; target = to_slot slot handler }) ≡ ok plan
              → record { image = image; target = to_slot slot handler } ≡ plan
          the_plan q = cc

      by_readonly :
          (ro : Bool)
          → slot.readonly ≡ ro
          → (if ro
              then err install_failed
              else handled image slot (get_update_handler pattern_match f image slot))
            ≡ ok plan
          → Planned plan
      by_readonly true er q = cc
      by_readonly false er q = by_handler (get_update_handler pattern_match f image slot) er refl q

  image_plan :
      (cls : Str) (o : Option RaucImage) (plan : RImageInstallPlan)
      → find_image config.system_variant cls manifest.images none ≡ o
      → plan_for_image pattern_match f group o ≡ ok plan
      → Planned plan
  image_plan cls none plan e h = cc
  image_plan cls (some image) plan e h =
      slot_plan image cls (lookup_target group image.slotclass) plan
        (find_image_sound config.system_variant cls manifest.images image e) refl h

  continued :
      (r : Result RImageInstallPlan) (rest : Result (List RImageInstallPlan))
      (plans : List RImageInstallPlan)
      → ((plan : RImageInstallPlan) → r ≡ ok plan → Planned plan)
      → ((later : List RImageInstallPlan) → rest ≡ ok later → All Planned later)
      → continue r rest ≡ ok plans
      → All Planned plans
  continued (err x) rest plans own next h = cc
  continued (ok plan) (err x) plans own next h = cc
  continued (ok plan) (ok later) plans own next h =
      subst (λ l. All Planned l) (the_plans h) (own plan refl, next later refl)
    where
      the_plans : ok (plan ∷ later) ≡ ok plans → plan ∷ later ≡ plans
      the_plans q = cc

  no_plans : (plans : List RImageInstallPlan) → ok [] ≡ ok plans → All Planned plans
  no_plans plans h = subst (λ l. All Planned l) (the_plans h) tt
    where
      the_plans : ok [] ≡ ok plans → [] ≡ plans
      the_plans q = cc

  slot_plans_sound :
      (slotclasses : List Str) (plans : List RImageInstallPlan)
      → slot_plans pattern_match f config manifest group slotclasses ≡ ok plans
      → All Planned plans
  unfolding slot_plans
  slot_plans_sound [] plans h = no_plans plans h
  slot_plans_sound (cls ∷ slotclasses) plans h =
      continued _ _ plans (λ plan. image_plan cls _ plan refl) (slot_plans_sound slotclasses) h

  repo_plan :
      (image : RaucImage) (o : Option RArtifactRepo) (plan : RImageInstallPlan)
      → In image manifest.images
      → is_some image.artifact ≡ true
      → lookup_repo config.artifact_repos image.slotclass ≡ o
      → plan_for_repo image o ≡ ok plan
      → Planned plan
  unfolding lookup_repo
  repo_plan image none plan m a e h = cc
  repo_plan image (some repo) plan m a e h =
      let (r, q) = find_first_sound (λ x. str_eq x.name image.slotclass) config.artifact_repos e in
      subst Planned (the_plan h) (m, (a, r, (str_eq_iff repo.name image.slotclass).0 q))
    where
      the_plan :
          ok (record { image = image; target = to_repo repo }) ≡ ok plan
          → record { image = image; target = to_repo repo } ≡ plan
      the_plan q = cc

  artifact_plans_sound :
      (images : List RaucImage) (plans : List RImageInstallPlan)
      → ((image : RaucImage) → In image images → In image manifest.images)
      → artifact_plans config.artifact_repos images ≡ ok plans
      → All Planned plans
  unfolding artifact_plans
  artifact_plans_sound [] plans among h = no_plans plans h
  artifact_plans_sound (x ∷ images) plans among h =
      by_artifact (is_some x.artifact) refl
        (λ later. artifact_plans_sound images later (λ i m. among i (inr m))) h
    where
      by_artifact :
          (a : Bool)
          → is_some x.artifact ≡ a
          → ((later : List RImageInstallPlan)
              → artifact_plans config.artifact_repos images ≡ ok later
              → All Planned later)
          → (if a
              then continue
                  (plan_for_repo x (lookup_repo config.artifact_repos x.slotclass))
                  (artifact_plans config.artifact_repos images)
              else artifact_plans config.artifact_repos images)
            ≡ ok plans
          → All Planned plans
      by_artifact false e next h = next plans h
      by_artifact true e next h =
          continued _ _ plans
            (λ plan.
              repo_plan x (lookup_repo config.artifact_repos x.slotclass) plan (among x (inl refl))
                e refl)
            next h

  module _ {S : Type 0} (a : Artifacts S) where
    -- The stages of a successful planning.
    abbrev Stages : List RImageInstallPlan → Type 0
    Stages plans =
        (slots repos : List RImageInstallPlan) × (slot_plans pattern_match f config manifest group
            (get_all_manifest_slot_classes manifest)
          ≡ ok slots)
        × (artifact_plans config.artifact_repos manifest.images ≡ ok repos)
        × (some_plans (slots ++ repos) ≡ ok plans)

    stages :
        (plans : List RImageInstallPlan) (s s' : S)
        → install_make_plans pattern_match f a config manifest group s ≡ (ok plans, s')
        → Stages plans
    unfolding install_make_plans
    stages plans s s' h =
        let into = λ (slots : List RImageInstallPlan) (repos : List RImageInstallPlan).
          lift {S = S} (some_plans (slots ++ repos)) in
        let for_repos = lift {S = S} (artifact_plans config.artifact_repos manifest.images) in
        let (slots, s1, e1, h1) =
          >>=-ok
            (lift (
              slot_plans pattern_match f config manifest group
                (get_all_manifest_slot_classes manifest)))
            (λ slots. a.artifacts_init >> a.artifacts_prune >> (for_repos >>= into slots)) s s'
            plans h in
        let (u, s2, e2, h2) =
          >>=-ok (a.artifacts_init >> a.artifacts_prune) (λ u. for_repos >>= into slots) s1 s' plans
            h1 in
        let (repos, s3, e3, h3) = >>=-ok for_repos (into slots) s2 s' plans h2 in
        (slots, repos, ap (λ r. r.0) e1, ap (λ r. r.0) e3, ap (λ r. r.0) h3)

    -- Each plan that r_install_make_plans makes is for an image of the manifest. Either it is for
    -- the slot that the target group has for the image's class, which is not read-only, with the
    -- handler for the two, and the image is one for the system's variant, or one for all variants
    -- where the class has no image for the system's variant; or the image is an artifact, for the
    -- repository with the name of its class. There is at least one plan.
    pub install_make_plans_sound :
        (plans : List RImageInstallPlan) (s s' : S)
        → install_make_plans pattern_match f a config manifest group s ≡ (ok plans, s')
        → All Planned plans × (plans ≢ [])
    install_make_plans_sound plans s s' h =
        let (slots, repos, e1, e2, e3) = stages plans s s' h in
        from_parts (slots ++ repos) e3 (
          All-append Planned slots repos
            (slot_plans_sound (get_all_manifest_slot_classes manifest) slots e1)
            (artifact_plans_sound manifest.images repos (λ i m. m) e2))
      where
        from_parts :
            (all : List RImageInstallPlan)
            → some_plans all ≡ ok plans
            → All Planned all
            → All Planned plans × (plans ≢ [])
        from_parts [] e p = cc
        from_parts (x ∷ all) e p =
            let same = the_plans e in (subst (λ l. All Planned l) same p, not_empty same)
          where
            the_plans : ok (x ∷ all) ≡ ok plans → x ∷ all ≡ plans
            the_plans q = cc

            not_empty : x ∷ all ≡ plans → plans ≢ []
            not_empty q r = cc
