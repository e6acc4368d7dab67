-- ===== src/Install/Handler/Safe.antt =====
-- The boot state of the target through launch_and_wait_default_handler
-- (kirkstone/local/rauc/src/install.c).
use docker_yocto_kirkstone_n.Prelude.{◌≡◌, refl, ap, ◌∙◌, ◌⊎◌, inl, inr, Bool, List, Option, Str}
use mathlib.Core.Path.{subst}
use docker_yocto_kirkstone_n.Exec.{Result, ok, Exec, lift, ◌>>=◌}
use docker_yocto_kirkstone_n.Exec.Accepts.{BindCases, >>=-cases}
use docker_yocto_kirkstone_n.Slot.{RaucSlot}
use docker_yocto_kirkstone_n.Context.{RaucConfig}
use docker_yocto_kirkstone_n.Manifest.{RaucManifest}
use docker_yocto_kirkstone_n.Update.{Features}
use docker_yocto_kirkstone_n.Install.Target.{TargetGroup}
use docker_yocto_kirkstone_n.Install.Plans.{RImageInstallPlan, install_make_plans}
use docker_yocto_kirkstone_n.Install.Device.{Paths, RaucInstallArgs, Device}
use docker_yocto_kirkstone_n.Install.Handler.{
  get_boot_mark_slot, pre_install_checks, hook_path, update_slots, launch_and_wait_default_handler,
}
use docker_yocto_kirkstone_n.Install.Handler.Keeps.{pre_install_checks-Keeps, make_plans-Keeps}
use docker_yocto_kirkstone_n.Install.Handler.Marked.{
  BootLaws, Untouched, NothingWritten, LeftBad, updated,
}

module _ {S W : Type 0} (d : Device S) (holds : S → W) (Bad : RaucSlot → S → Type 0)
    (laws : BootLaws d holds Bad) (paths : Paths) (config : RaucConfig) (args : RaucInstallArgs)
    (manifest : RaucManifest) where
  module _ (pattern_match : Str → Str → Bool) (f : Features) (bundledir : Str)
      (group : TargetGroup) where
    -- The plans that passed the checks were carried out.
    abbrev Carried : List RImageInstallPlan → Option RaucSlot → Result (Unit {0}) → S → Type 0
    Carried plans o r s' =
        (checked : List RImageInstallPlan) × (t t' : S) × (pre_install_checks paths d bundledir
            plans t
          ≡ (ok checked, t'))
        × LeftBad d holds Bad laws paths config args manifest
            (hook_path paths d bundledir manifest.hook_name) o checked r s'

    -- The ways in which an installation ends.
    abbrev pub Ending : S → Result (Unit {0}) → S → Type 0
    Ending s r s' =
        NothingWritten d holds Bad laws paths config args manifest s r s'
        ⊎ ((plans : List RImageInstallPlan) × (o : Option RaucSlot) × ((install_make_plans
                pattern_match f d.artifacts config manifest group s).0
              ≡ ok plans)
            × (get_boot_mark_slot plans ≡ ok o)
            × Carried plans o r s')

    -- However the default handler of an installation ends: it has failed and nothing was written; or
    -- there are plans that passed the checks, and if these are for a slot to be booted, then either
    -- this slot is still marked bad, or the plans were carried out with success while it was.
    pub handler-Ending :
        (s s' : S) (r : Result (Unit {0}))
        → launch_and_wait_default_handler paths d config args manifest pattern_match f bundledir
            group s
          ≡ (r, s')
        → Ending s r s'
    unfolding launch_and_wait_default_handler
    handler-Ending s s' r h = from_plans (
        >>=-cases (install_make_plans pattern_match f d.artifacts config manifest group) later s s'
          r h)
      where
        update : Option RaucSlot → List RImageInstallPlan → Exec S (Unit {0})
        update o checked = update_slots paths d config args manifest bundledir o checked

        checks : List RImageInstallPlan → Option RaucSlot → Exec S (Unit {0})
        checks plans o = pre_install_checks paths d bundledir plans >>= update o

        later : List RImageInstallPlan → Exec S (Unit {0})
        later plans = lift (get_boot_mark_slot plans) >>= checks plans

        make : Exec S (List RImageInstallPlan)
        make = install_make_plans pattern_match f d.artifacts config manifest group

        planned :
            (t : S) → (make s).1 ≡ t → Untouched d holds Bad laws paths config args manifest s t
        planned t e = subst (Untouched d holds Bad laws paths config args manifest s) e (
            make_plans-Keeps d (Untouched d holds Bad laws paths config args manifest s)
              pattern_match f config manifest group (λ x k. laws.init-holds x ∙ k)
              (λ x k. laws.prune-holds x ∙ k) s refl)

        checked_holds :
            (plans : List RImageInstallPlan) (t t' : S)
            → Untouched d holds Bad laws paths config args manifest s t
            → (pre_install_checks paths d bundledir plans t).1 ≡ t'
            → Untouched d holds Bad laws paths config args manifest s t'
        checked_holds plans t t' u e =
            subst (Untouched d holds Bad laws paths config args manifest s) e (
              pre_install_checks-Keeps d (Untouched d holds Bad laws paths config args manifest s)
                paths bundledir plans t u)

        from_checks :
            (plans : List RImageInstallPlan) (o : Option RaucSlot) (t : S)
            → (make s).0 ≡ ok plans
            → get_boot_mark_slot plans ≡ ok o
            → Untouched d holds Bad laws paths config args manifest s t
            → BindCases (pre_install_checks paths d bundledir plans) (update o) t s' r
            → Ending s r s'
        from_checks plans o t em eo u (inl (e, er, q)) =
            inl ((e, er), checked_holds plans t s' u (ap (λ p. p.1) q))
        from_checks plans o t em eo u (inr (checked, t', q, hu)) =
            elim (updated d holds Bad laws paths config args manifest bundledir o checked s t' s' r
              (checked_holds plans t t' u (ap (λ p. p.1) q)) hu) [
                | inl w ↦ inl w
                | inr w ↦ inr (plans, o, em, eo, (checked, t, t', q, w))
              ]

        from_boot :
            (plans : List RImageInstallPlan) (t : S)
            → (make s).0 ≡ ok plans
            → Untouched d holds Bad laws paths config args manifest s t
            → BindCases (lift (get_boot_mark_slot plans)) (checks plans) t s' r
            → Ending s r s'
        from_boot plans t em u (inl (e, er, q)) = inl (
          (e, er),
          subst (Untouched d holds Bad laws paths config args manifest s) (ap (λ p. p.1) q) u,
        )
        from_boot plans t em u (inr (o, t', q, hc)) =
            from_checks plans o t' em (ap (λ p. p.0) q)
              (subst (Untouched d holds Bad laws paths config args manifest s) (ap (λ p. p.1) q) u)
              (>>=-cases (pre_install_checks paths d bundledir plans) (update o) t' s' r hc)

        from_plans : BindCases make later s s' r → Ending s r s'
        from_plans (inl (e, er, q)) = inl ((e, er), planned s' (ap (λ p. p.1) q))
        from_plans (inr (plans, t, q, hl)) =
            from_boot plans t (ap (λ p. p.0) q) (planned t (ap (λ p. p.1) q))
              (>>=-cases (lift (get_boot_mark_slot plans)) (checks plans) t s' r hl)
