-- ===== src/Install/Handler/Done.antt =====
-- What carrying out plans (handle_plans, for launch_and_wait_default_handler of
-- kirkstone/local/rauc/src/install.c) has done to a device when it succeeds.
use docker_yocto_kirkstone_n.Prelude.{
  ◌≡◌, refl, ap, Bool, true, false, List, [], ◌∷◌, Option, none, some, Str, codes, opt_eq, is_some,
  Bool-cases, inl, inr, In, All,
}
use mathlib.Core.Path.{subst}
use docker_yocto_kirkstone_n.Exec.{
  Error, Result, ok, err, Exec, raise, next, resume, catch, aborted, install_mounted,
}
use docker_yocto_kirkstone_n.Exec.Accepts.{BindCases, >>=-cases}
use docker_yocto_kirkstone_n.Slot.{RaucSlotStatus, RaucSlot}
use docker_yocto_kirkstone_n.Context.{RaucConfig}
use docker_yocto_kirkstone_n.Manifest.{RaucImage, RaucManifest}
use docker_yocto_kirkstone_n.Update.{ImgToSlotHandler}
use docker_yocto_kirkstone_n.Install.Plans.{Target, to_slot, to_repo, RImageInstallPlan}
use docker_yocto_kirkstone_n.Install.Device.{Paths, RaucInstallArgs, Device}
use docker_yocto_kirkstone_n.Install.Device.Logged.{
  Event, saved, installed_artifact, Log, succeeds, logged,
}
use docker_yocto_kirkstone_n.Install.SlotPlan.{
  update_slot_status, with_status, is_up_to_date, pending, updating, save_outcome, copy_image,
  set_pending, write_image, install_loaded, handle_slot_install_plan,
}
use docker_yocto_kirkstone_n.Install.SlotPlan.Trace.{Tells}
use docker_yocto_kirkstone_n.Install.Handler.{handle_plan, handle_plans}
use docker_yocto_kirkstone_n.Install.Handler.Keeps.{WriteKeeps, plans-Keeps}

module _ {S : Type 0} (d : Device S) (manifest : RaucManifest) (args : RaucInstallArgs)
    (hook : Option Str) where
  -- The status `ok` with the image was saved for the slot.
  abbrev pub SavedOk : RaucSlot → RaucImage → Log → Type 0
  SavedOk slot image log =
      (new : RaucSlotStatus) × In (saved slot.name (some new) true) log
      × Tells (codes "ok") manifest image new

  abbrev Finished : RaucSlot → RaucImage → Result (Unit {0}) × (S × Log) → Type 0
  Finished slot image r = r.0 ≡ ok tt → SavedOk slot image r.1.1

  failure :
      (slot : RaucSlot) (image : RaucImage) (e : Error) (s : S × Log)
      → Finished slot image (err e, s)
  failure slot image e s q = absurd (differ q)
    where
      differ : ◌≡◌ {A = Result (Unit {0})} (err e) (ok tt) → ⊥
      differ h = cc

  save-Finished :
      (slot : RaucSlot) (st : RaucSlotStatus) (image : RaucImage) (s : S × Log)
      → Finished slot image
          (save_outcome (logged d) manifest args hook slot st image (codes "ok") s)
  save-Finished slot st image s q =
      let new = update_slot_status st (codes "ok") manifest image args (d.now s.0) in
      (new, inl (ap (λ r. saved slot.name (some new) (succeeds r)) q), (refl, refl, refl, refl))

  copy-Finished :
      (slot : RaucSlot) (st : RaucSlotStatus) (image : RaucImage) (handler : ImgToSlotHandler)
      (s : S × Log)
      → Finished slot image (copy_image (logged d) manifest args hook slot st image handler s)
  copy-Finished slot st image handler s =
      by_handler ((logged d).slot_handler handler image (with_status slot (updating st)) hook s)
    where
      telling : Exec (S × Log) (Unit {0})
      telling = save_outcome (logged d) manifest args hook slot (updating st) image (codes "failed")

      by_telling :
          (e : Error) (r : Result (Unit {0}) × (S × Log))
          → Finished slot image (resume r.0 (λ u. raise e) (λ e'. raise e) r.1)
      by_telling e (ok u, t) = failure slot image e t
      by_telling e (err x, t) = failure slot image e t

      by_handler :
          (r : Result (Unit {0}) × (S × Log))
          → Finished slot image (
              resume r.0
                (λ u.
                  save_outcome (logged d) manifest args hook slot (updating st) image (codes "ok"))
                (λ e. catch telling (λ u. raise e) (λ e'. raise e))
                r.1)
      by_handler (ok u, t) = save-Finished slot (updating st) image t
      by_handler (err e, t) = by_telling e (telling t)

  write-Finished :
      (local : Bool) (slot : RaucSlot) (st : RaucSlotStatus) (image : RaucImage)
      (handler : ImgToSlotHandler) (s : S × Log)
      → Finished slot image
          (write_image (logged d) manifest args hook local slot st image handler s)
  write-Finished true slot st image handler s = copy-Finished slot st image handler s
  write-Finished false slot st image handler s =
      by_pending (set_pending (logged d) manifest args hook slot st s)
    where
      by_pending :
          (r : Result (Unit {0}) × (S × Log))
          → Finished slot image (
              next r.0
                (λ u. copy_image (logged d) manifest args hook slot (pending st) image handler)
                r.1)
      by_pending (ok u, t) = copy-Finished slot (pending st) image handler t
      by_pending (err e, t) = failure slot image e t

  loaded-Finished :
      (config : RaucConfig) (slot : RaucSlot) (o : Option RaucSlotStatus) (image : RaucImage)
      (handler : ImgToSlotHandler) (s : S × Log)
      → Finished slot image
          (install_loaded (logged d) manifest args hook config slot o image handler s)
  loaded-Finished config slot none image handler s = failure slot image aborted s
  loaded-Finished config slot (some st) image handler s =
      elim (Bool-cases (is_some slot.mount_point)) [
        | inl m ↦ rw m (failure slot image install_mounted s)
        | inr m ↦ elim (Bool-cases (is_up_to_date slot st image)) [
          | inl u ↦ rw (m, u) (save-Finished slot st image s)
          | inr u ↦
              rw (m, u)
                (write-Finished (opt_eq config.statusfile_path (some (codes "per-slot"))) slot st
                  image handler s)
        ]
      ]

  -- The log tells that the plan was carried out: the status `ok` with the image was saved for the
  -- slot, as r_slot_status_load gave it, or the artifact was installed.
  abbrev pub Carried : RaucImage → Target → Log → Type 0
  Carried image (to_slot slot handler) log =
      (t : S) × SavedOk (d.slot_status_load slot t).0 image log
  Carried image (to_repo repo) log = In (installed_artifact repo image true) log

  module _ (paths : Paths) (config : RaucConfig) where
    plan-Carried :
        (image : RaucImage) (target : Target) (s t : S × Log)
        → handle_plan paths
            (logged d)
            config
            args
            manifest
            hook
            (record { image = image; target = target })
            s
          ≡ (ok tt, t)
        → Carried image target t.1
    unfolding handle_slot_install_plan
    plan-Carried image (to_slot slot handler) s t h =
        let loaded = (logged d).slot_status_load slot s in
        (
          s.0,
          subst (λ r. SavedOk (d.slot_status_load slot s.0).0 image r.1.1) h
              (loaded-Finished config loaded.0 loaded.0.status image handler loaded.1
                (ap (λ r. r.0) h)),
        )
    plan-Carried image (to_repo repo) s t h =
        subst (λ r. In (installed_artifact repo image (succeeds r.0)) r.1.1) h (inl refl)

    -- Nothing is taken out of the log.
    log-Keeps : (e : Event) → WriteKeeps (logged d) (λ s. In e s.1)
    log-Keeps e = record {
      load = λ slot s h. h;
      save = λ slot s h. inr h;
      move = λ slot o s h. h;
      write = λ handler image slot hook s h. inr h;
      artifact = λ m image repo hook s h. inr h;
      prune = λ s h. h;
    }

    stays :
        (plans : List RImageInstallPlan) (s t : S × Log) (e : Event)
        → handle_plans paths (logged d) config args manifest hook plans s ≡ (ok tt, t)
        → In e s.1
        → In e t.1
    stays plans s t e h m =
        subst (λ r. In e r.1.1) h
          (plans-Keeps (logged d) (λ s. In e s.1) (log-Keeps e) config args manifest hook paths
            plans s m)

    Carried-stays :
        (plans : List RImageInstallPlan) (s t : S × Log) (image : RaucImage) (target : Target)
        → handle_plans paths (logged d) config args manifest hook plans s ≡ (ok tt, t)
        → Carried image target s.1
        → Carried image target t.1
    Carried-stays plans s t image (to_slot slot handler) h (x, (new, m, tells)) =
        (x, (new, stays plans s t _ h m, tells))
    Carried-stays plans s t image (to_repo repo) h m = stays plans s t _ h m

    pub plans-Carried :
        (plans : List RImageInstallPlan) (s t : S × Log)
        → handle_plans paths (logged d) config args manifest hook plans s ≡ (ok tt, t)
        → All (λ (plan : RImageInstallPlan). Carried plan.image plan.target t.1) plans
    unfolding handle_plans
    plans-Carried [] s t h = tt
    plans-Carried (plan ∷ plans) s t h =
        from
          (>>=-cases (handle_plan paths (logged d) config args manifest hook plan)
            (λ u. handle_plans paths (logged d) config args manifest hook plans) s t (ok tt) h)
          (λ a. plans-Carried plans a t)
      where
        from :
            BindCases
              (handle_plan paths (logged d) config args manifest hook plan)
              (λ u. handle_plans paths (logged d) config args manifest hook plans)
              s
              t
              (ok tt)
            → ((a : S × Log)
                → handle_plans paths (logged d) config args manifest hook plans a ≡ (ok tt, t)
                → All (λ (p : RImageInstallPlan). Carried p.image p.target t.1) plans)
            → All (λ (p : RImageInstallPlan). Carried p.image p.target t.1) (plan ∷ plans)
        from (inl (e, bad, q)) rest = cc
        from (inr (u, a, q, hs)) rest = (
          Carried-stays plans a t plan.image plan.target hs
              (plan-Carried plan.image plan.target s a q),
          rest a hs,
        )
