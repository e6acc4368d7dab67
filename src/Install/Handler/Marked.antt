-- ===== src/Install/Handler/Marked.antt =====
-- The boot state of the target while the images are written (launch_and_wait_default_handler of
-- kirkstone/local/rauc/src/install.c).
use docker_yocto_kirkstone_n.Prelude.{
  ◌≡◌, refl, ap, ◌∙◌, ◌⊎◌, inl, inr, Bool, true, false, List, Option, none, some, Str,
}
use mathlib.Core.Path.{subst}
use docker_yocto_kirkstone_n.Exec.{Error, Result, ok, err, Exec, pure, raise, resume, ◌>>◌}
use docker_yocto_kirkstone_n.Exec.Accepts.{BindCases, >>=-cases}
use docker_yocto_kirkstone_n.Slot.{RaucSlot}
use docker_yocto_kirkstone_n.Context.{RaucConfig}
use docker_yocto_kirkstone_n.Manifest.{RaucManifest}
use docker_yocto_kirkstone_n.Install.Plans.{RImageInstallPlan}
use docker_yocto_kirkstone_n.Install.Device.{Paths, RaucInstallArgs, Device}
use docker_yocto_kirkstone_n.Install.Handler.{
  mark_active, nonbootable_error, mark_target_bad, mark_target_active, handle_plans, hook_path,
  update_slots,
}
use docker_yocto_kirkstone_n.Install.Handler.Keeps.{WriteKeeps, plans-Keeps}

module _ {S W : Type 0} (d : Device S) (holds : S → W) (Bad : RaucSlot → S → Type 0) where
  -- What is seen of what was written is left by the artifacts and the boot selection, and a slot that
  -- is marked bad stays so while the plans are carried out.
  pub record BootLaws : Type 0 where
    pub init-holds : (s : S) → holds (d.artifacts.artifacts_init s).1 ≡ holds s
    pub prune-holds : (s : S) → holds (d.artifacts.artifacts_prune s).1 ≡ holds s
    pub mark_bad-holds : (slot : RaucSlot) (s : S) → holds (d.mark_bad slot s).1 ≡ holds s
    pub mark_bad-Bad : (slot : RaucSlot) (s s' : S) → d.mark_bad slot s ≡ (ok tt, s') → Bad slot s'
    pub keeps-Bad : (slot : RaucSlot) → WriteKeeps d (Bad slot)

  module _ (laws : BootLaws) (paths : Paths) (config : RaucConfig) (args : RaucInstallArgs)
      (manifest : RaucManifest) where
    -- Nothing was written.
    abbrev pub Untouched : S → S → Type 0
    Untouched s t = holds t ≡ holds s

    abbrev pub NothingWritten : S → Result (Unit {0}) → S → Type 0
    NothingWritten s r s' = ((e : Error) × (r ≡ err e)) × Untouched s s'

    -- All plans were carried out while the slot was marked bad, and then it was activated.
    abbrev pub Activated :
        Option Str → RaucSlot → List RImageInstallPlan → Result (Unit {0}) → S → Type 0
    Activated hook slot checked r s' =
        (start done mid : S) × Bad slot start
        × (handle_plans paths d config args manifest hook checked start ≡ (ok tt, done))
        × (d.artifacts.artifacts_prune done ≡ (ok tt, mid))
        × (config.activate_installed ≡ true)
        × Bad slot mid
        × (mark_active paths d slot mid ≡ (r, s'))

    abbrev pub LeftBad :
        Option Str → Option RaucSlot → List RImageInstallPlan → Result (Unit {0}) → S → Type 0
    LeftBad hook none checked r s' =
        ((e : Error) × (r ≡ err e))
        ⊎ ((start done : S) × (handle_plans paths d config args manifest hook checked start
              ≡ (ok tt, done))
            × (d.artifacts.artifacts_prune done ≡ (ok tt, s')))
    LeftBad hook (some slot) checked r s' = Bad slot s' ⊎ Activated hook slot checked r s'

    mark_target_bad-holds :
        (o : Option RaucSlot) (s0 s : S)
        → Untouched s0 s
        → Untouched s0 (mark_target_bad paths d o s).1
    mark_target_bad-holds none s0 s h = h
    mark_target_bad-holds (some slot) s0 s h = reported (d.mark_bad slot s) moved
      where
        moved : Untouched s0 (d.mark_bad slot s).1
        moved = laws.mark_bad-holds slot s ∙ h

        reported :
            (r : Result (Unit {0}) × S)
            → Untouched s0 r.1
            → Untouched s0 (resume r.0 pure (λ e. raise (nonbootable_error paths d e)) r.1).1
        reported (ok u, t) k = k
        reported (err x, t) k = k

    target_is_bad :
        (slot : RaucSlot) (s s' : S)
        → mark_target_bad paths d (some slot) s ≡ (ok tt, s')
        → Bad slot s'
    target_is_bad slot s s' h = by_mark (d.mark_bad slot s) refl h
      where
        by_mark :
            (r : Result (Unit {0}) × S)
            → d.mark_bad slot s ≡ r
            → resume r.0 pure (λ e. raise (nonbootable_error paths d e)) r.1 ≡ (ok tt, s')
            → Bad slot s'
        by_mark (ok u, t) e q = subst (Bad slot) (ap (λ p. p.1) q) (laws.mark_bad-Bad slot s t e)
        by_mark (err x, t) e q = cc

    -- After the plans, with the slot marked bad.
    ending :
        (hook : Option Str) (slot : RaucSlot) (checked : List RImageInstallPlan) (active : Bool)
        (start done mid s' : S) (r : Result (Unit {0}))
        → config.activate_installed ≡ active
        → Bad slot start
        → handle_plans paths d config args manifest hook checked start ≡ (ok tt, done)
        → d.artifacts.artifacts_prune done ≡ (ok tt, mid)
        → Bad slot mid
        → mark_target_active paths d active (some slot) mid ≡ (r, s')
        → LeftBad hook (some slot) checked r s'
    ending hook slot checked true start done mid s' r e b hp hd bm h =
        inr (start, done, mid, b, hp, hd, e, bm, h)
    ending hook slot checked false start done mid s' r e b hp hd bm h =
        inl (subst (Bad slot) (ap (λ p. p.1) h) bm)

    -- The slot is marked bad before the plans, or nothing is written.
    abbrev Began :
        Option Str → RaucSlot → List RImageInstallPlan → S → Result (Unit {0}) → S → Type 0
    Began hook slot checked s0 r t =
        NothingWritten s0 r t
        ⊎ ((start : S) × Bad slot start
            × (handle_plans paths d config args manifest hook checked start ≡ (r, t)))

    began :
        (hook : Option Str) (slot : RaucSlot) (checked : List RImageInstallPlan) (s0 s t : S)
        (r : Result (Unit {0}))
        → Untouched s0 s
        → (mark_target_bad paths d (some slot)
              >> handle_plans paths d config args manifest hook checked)
            s
          ≡ (r, t)
        → Began hook slot checked s0 r t
    began hook slot checked s0 s t r u h = from (
        >>=-cases (mark_target_bad paths d (some slot))
          (λ x. handle_plans paths d config args manifest hook checked) s t r h)
      where
        from :
            BindCases
              (mark_target_bad paths d (some slot))
              (λ x. handle_plans paths d config args manifest hook checked)
              s
              t
              r
            → Began hook slot checked s0 r t
        from (inl (e, er, m)) = inl (
          (e, er),
          subst (Untouched s0) (ap (λ p. p.1) m) (mark_target_bad-holds (some slot) s0 s u),
        )
        from (inr (a, start, m, q)) = inr (start, target_is_bad slot s start m, q)

    still_bad :
        (hook : Option Str) (slot : RaucSlot) (checked : List RImageInstallPlan) (start done : S)
        (r : Result (Unit {0}))
        → Bad slot start
        → handle_plans paths d config args manifest hook checked start ≡ (r, done)
        → Bad slot done
    still_bad hook slot checked start done r b h = subst (Bad slot) (ap (λ p. p.1) h) (
        plans-Keeps d (Bad slot) (laws.keeps-Bad slot) config args manifest hook paths checked start
          b)

    bad_after_prune :
        (slot : RaucSlot) (done mid : S) (r : Result (Unit {0}))
        → Bad slot done
        → d.artifacts.artifacts_prune done ≡ (r, mid)
        → Bad slot mid
    bad_after_prune slot done mid r b h =
        subst (Bad slot) (ap (λ p. p.1) h) ((laws.keeps-Bad slot).prune done b)

    pub updated :
        (bundledir : Str) (o : Option RaucSlot) (checked : List RImageInstallPlan) (s0 s s' : S)
        (r : Result (Unit {0}))
        → Untouched s0 s
        → update_slots paths d config args manifest bundledir o checked s ≡ (r, s')
        → NothingWritten s0 r s'
          ⊎ LeftBad (hook_path paths d bundledir manifest.hook_name) o checked r s'
    unfolding update_slots
    updated bundledir none checked s0 s s' (err e) u h = inr (inl (e, refl))
    updated bundledir none checked s0 s s' (ok tt) u h =
        inr (inr (from (>>=-cases (first >> prune) (λ x. pure tt) s s' (ok tt) h)))
      where
        hook : Option Str
        hook = hook_path paths d bundledir manifest.hook_name

        first : Exec S (Unit {0})
        first = pure tt >> handle_plans paths d config args manifest hook checked

        prune : Exec S (Unit {0})
        prune = d.artifacts.artifacts_prune

        Done : S → Type 0
        Done t =
            (start done : S) × (handle_plans paths d config args manifest hook checked start
              ≡ (ok tt, done))
            × (prune done ≡ (ok tt, t))

        by_plans : (t : S) → BindCases first (λ x. prune) s t (ok tt) → Done t
        by_plans t (inl (e, bad, q)) = cc
        by_plans t (inr (a, done, q, hd)) = (s, done, q, hd)

        from : BindCases (first >> prune) (λ x. pure tt) s s' (ok tt) → Done s'
        from (inl (e, bad, q)) = cc
        from (inr (a, mid, q, hm)) =
            subst Done (ap (λ p. p.1) hm)
              (by_plans mid (>>=-cases first (λ x. prune) s mid (ok tt) q))
    updated bundledir (some slot) checked s0 s s' r u h = from (
        >>=-cases
          (mark_target_bad paths d (some slot)
            >> handle_plans paths d config args manifest
                (hook_path paths d bundledir manifest.hook_name) checked
            >> d.artifacts.artifacts_prune)
          (λ x. mark_target_active paths d config.activate_installed (some slot)) s s' r h)
      where
        hook : Option Str
        hook = hook_path paths d bundledir manifest.hook_name

        first : Exec S (Unit {0})
        first =
            mark_target_bad paths d (some slot)
            >> handle_plans paths d config args manifest hook checked

        -- The artifacts are pruned with success.
        pruned :
            (mid : S)
            → BindCases first (λ x. d.artifacts.artifacts_prune) s mid (ok tt)
            → mark_target_active paths d config.activate_installed (some slot) mid ≡ (r, s')
            → LeftBad hook (some slot) checked r s'
        pruned mid (inl (e, bad, q)) h = cc
        pruned mid (inr (a, done, q, hd)) h =
            by_start (began hook slot checked s0 s done (ok tt) u q)
          where
            by_start :
                Began hook slot checked s0 (ok tt) done → LeftBad hook (some slot) checked r s'
            by_start (inl ((e, bad), t)) = cc
            by_start (inr (start, b, hp)) =
                let bd = still_bad hook slot checked start done (ok tt) b hp in
                ending hook slot checked config.activate_installed start done mid s' r refl b hp hd
                  (bad_after_prune slot done mid (ok tt) bd hd) h

        -- An error before the activation.
        failed :
            (e : Error)
            → r ≡ err e
            → BindCases first (λ x. d.artifacts.artifacts_prune) s s' (err e)
            → NothingWritten s0 r s' ⊎ LeftBad hook (some slot) checked r s'
        failed e er (inl (e', q', q)) = by_start (began hook slot checked s0 s s' (err e') u q)
          where
            by_start :
                Began hook slot checked s0 (err e') s'
                → NothingWritten s0 r s' ⊎ LeftBad hook (some slot) checked r s'
            by_start (inl (x, t)) = inl ((e, er), t)
            by_start (inr (start, b, hp)) =
                inr (inl (still_bad hook slot checked start s' (err e') b hp))
        failed e er (inr (a, done, q, hd)) =
            by_start (began hook slot checked s0 s done (ok tt) u q)
          where
            by_start :
                Began hook slot checked s0 (ok tt) done
                → NothingWritten s0 r s' ⊎ LeftBad hook (some slot) checked r s'
            by_start (inl ((x, bad), t)) = cc
            by_start (inr (start, b, hp)) = inr (
                inl (
                  bad_after_prune slot done s' (err e)
                    (still_bad hook slot checked start done (ok tt) b hp) hd))

        from :
            BindCases
              (first >> d.artifacts.artifacts_prune)
              (λ x. mark_target_active paths d config.activate_installed (some slot))
              s
              s'
              r
            → NothingWritten s0 r s' ⊎ LeftBad hook (some slot) checked r s'
        from (inl (e, er, q)) =
            failed e er (>>=-cases first (λ x. d.artifacts.artifacts_prune) s s' (err e) q)
        from (inr (a, mid, q, ha)) =
            inr (pruned mid (>>=-cases first (λ x. d.artifacts.artifacts_prune) s mid (ok tt) q) ha)
