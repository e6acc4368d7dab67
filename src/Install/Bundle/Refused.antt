-- ===== src/Install/Bundle/Refused.antt =====
-- A bundle that do_install_bundle (kirkstone/local/rauc/src/install.c) refuses.
use docker_yocto_kirkstone_n.Prelude.{◌≡◌, ◌≢◌, ◌⊎◌, Bool, true, false, List, some, Str}
use docker_yocto_kirkstone_n.Exec.{Error, Result, ok, err, Exec}
use docker_yocto_kirkstone_n.Exec.Keeps.{Keeps}
use docker_yocto_kirkstone_n.Slot.{RaucSlot}
use docker_yocto_kirkstone_n.Context.{RaucConfig}
use docker_yocto_kirkstone_n.Semver.{SemverGlib, less_equal}
use docker_yocto_kirkstone_n.Manifest.{RaucManifest}
use docker_yocto_kirkstone_n.Update.{Features}
use docker_yocto_kirkstone_n.Install.Target.{TargetGroup}
use docker_yocto_kirkstone_n.Install.Device.{Paths, RaucInstallArgs, Device}
use docker_yocto_kirkstone_n.Install.Bundle.{RaucBundle, Bundles}

abbrev pub Fails : {S A : Type 0} → (S → Type 0) → Result A × S → Type 0
Fails P (r, s) = ((e : Error) × (r ≡ err e)) × P s

module _ {S : Type 0} (b : Bundles S) (P : S → Type 0) where
  -- The operations around the installation itself keep the property.
  pub record BundleKeeps : Type 0 where
    pub external : (slots : List RaucSlot) → Keeps P (b.update_external_mount_points slots)
    pub check : (name : Str) → Keeps P (b.check_bundle name)
    pub mount : (bundle : RaucBundle) → Keeps P (b.mount_bundle bundle)
    pub umount : (bundle : RaucBundle) (s : S) → P s → P (b.umount_bundle bundle s)
    pub program :
        (handler mount_point : Str) (m : RaucManifest) (group : TargetGroup)
        → Keeps P (b.run_handler handler mount_point m group)
    pub hook : (m : RaucManifest) (mount_point : Str) → Keeps P (b.run_install_check m mount_point)

module _ {S : Type 0} (g : SemverGlib) (pattern_match : Str → Str → Bool) (f : Features) (p : Paths)
    (d : Device S) (b : Bundles S) (config : RaucConfig) (args : RaucInstallArgs) where
  -- The bundle has another compatible than the system, which the arguments do not allow, and no hook
  -- of its own decides on that; or the configuration has a lowest version, which the arguments do
  -- not ignore, and the bundle has no version or none that compares as at least that.
  abbrev pub Refused : RaucManifest → Type 0
  Refused manifest =
      ((manifest.hooks.install_check ≡ false)
        × (args.ignore_compatible ≡ false)
        × (config.system_compatible ≢ manifest.update_compatible))
      ⊎ ((min_version : Str) × (config.system_min_bundle_version ≡ some min_version)
          × (args.ignore_version_limit ≡ false)
          × ((version : Str)
              → manifest.update_version ≡ some version
              → less_equal g min_version version ≢ ok true))
