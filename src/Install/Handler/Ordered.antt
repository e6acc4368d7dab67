-- ===== src/Install/Handler/Ordered.antt =====
-- The order of what launch_and_wait_default_handler (kirkstone/local/rauc/src/install.c) does to a
-- device: the target is marked bad before anything is written, and made primary only afterwards.
use docker_yocto_kirkstone_n.Prelude.{
  ◌≡◌, ◌⊎◌, Bool, true, List, [], ◌∷◌, Option, none, some, Str, All,
}
use docker_yocto_kirkstone_n.Exec.{Error, Result, ok, err}
use docker_yocto_kirkstone_n.Slot.{RaucSlot}
use docker_yocto_kirkstone_n.Context.{RaucConfig}
use docker_yocto_kirkstone_n.Manifest.{RaucManifest}
use docker_yocto_kirkstone_n.Update.{Features}
use docker_yocto_kirkstone_n.Install.Target.{TargetGroup}
use docker_yocto_kirkstone_n.Install.Plans.{RImageInstallPlan, install_make_plans}
use docker_yocto_kirkstone_n.Install.Device.{Paths, RaucInstallArgs, Device}
use docker_yocto_kirkstone_n.Install.Device.Logged.{
  saved, wrote, installed_artifact, marked_bad, made_primary, Log, logged,
}
use docker_yocto_kirkstone_n.Install.Handler.{pre_install_checks, hook_path, mark_active}
use docker_yocto_kirkstone_n.Install.Handler.Done.{Carried}

-- The events that write to a slot or install an artifact.
unfoldable pub writes : Log → Log
writes [] = []
writes (wrote slot image done ∷ log) = wrote slot image done ∷ writes log
writes (installed_artifact repo image done ∷ log) = installed_artifact repo image done ∷ writes log
writes (saved slot status done ∷ log) = writes log
writes (marked_bad slot done ∷ log) = writes log
writes (made_primary slot done ∷ log) = writes log

-- The slot was marked bad with success, and no slot was made primary since.
unfoldable pub IsMarked : Str → Log → Type 0
IsMarked slot [] = ⊥
IsMarked slot (marked_bad name done ∷ log) = ((name ≡ slot) × (done ≡ true)) ⊎ IsMarked slot log
IsMarked slot (made_primary name done ∷ log) = ⊥
IsMarked slot (saved name status done ∷ log) = IsMarked slot log
IsMarked slot (wrote name image done ∷ log) = IsMarked slot log
IsMarked slot (installed_artifact repo image done ∷ log) = IsMarked slot log

module _ {S : Type 0} (d : Device S) where
  abbrev written_in : S × Log → Log
  written_in s = writes s.1

  abbrev MarkedIn : RaucSlot → S × Log → Type 0
  MarkedIn slot s = IsMarked slot.name s.1

  module _ (paths : Paths) (config : RaucConfig) (args : RaucInstallArgs) (manifest : RaucManifest)
      (pattern_match : Str → Str → Bool) (f : Features) (bundledir : Str)
      (group : TargetGroup) where
    abbrev hook : Option Str
    hook = hook_path paths (logged d) bundledir manifest.hook_name

    abbrev pub AllCarried : List RImageInstallPlan → S × Log → Type 0
    AllCarried checked s =
        All (λ (plan : RImageInstallPlan). Carried d manifest args hook plan.image plan.target s.1)
          checked

    -- Without a slot to be booted: the plans were carried out, or the installation failed. With one: it is marked bad, or what follows is its
    -- activation, before which it was marked bad and each plan had been carried out.
    abbrev pub BootSlot :
        Option RaucSlot → List RImageInstallPlan → Result (Unit {0}) → S × Log → Type 0
    BootSlot none checked r s' = ((e : Error) × (r ≡ err e)) ⊎ AllCarried checked s'
    BootSlot (some slot) checked r s' =
        IsMarked slot.name s'.1
        ⊎ ((mid : S × Log) × (config.activate_installed ≡ true)
            × IsMarked slot.name mid.1
            × AllCarried checked mid
            × (mark_active paths (logged d) slot mid ≡ (r, s')))

    -- The plans that were made and have passed the checks.
    abbrev pub Checked : S × Log → List RImageInstallPlan → List RImageInstallPlan → Type 0
    Checked s plans checked =
        ((install_make_plans pattern_match f (logged d).artifacts config manifest group s).0
          ≡ ok plans)
        × ((t t' : S × Log) × (pre_install_checks paths (logged d) bundledir plans t
              ≡ (ok checked, t')))
