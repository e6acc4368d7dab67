-- ===== src/Install/Bundle.antt =====
-- do_install_bundle of kirkstone/local/rauc/src/install.c: a bundle is checked, mounted, accepted or
-- refused, installed, and unmounted.
pub mod Refused
use docker_yocto_kirkstone_n.Prelude.{
  Bool, true, false, not, ◌&&◌, List, Option, none, some, Str, opt_eq, if◌then◌else◌,
}
use docker_yocto_kirkstone_n.Exec.{
  Error, Result, ok, err, Exec, pure, raise, lift, fail_if, ◌>>=◌, ◌>>◌, resume, catch,
  install_compat_mismatch, install_version_mismatch, install_rejected, unset_error, aborted,
}
use docker_yocto_kirkstone_n.Slot.{RaucSlot}
use docker_yocto_kirkstone_n.Context.{RaucConfig}
use docker_yocto_kirkstone_n.Semver.{SemverGlib, less_equal}
use docker_yocto_kirkstone_n.Manifest.{
  RaucManifest, RManifestBundleFormat, format_plain, format_verity, format_crypt, other_format,
}
use docker_yocto_kirkstone_n.Update.{Features}
use docker_yocto_kirkstone_n.Install.Target.{TargetGroup, determine_target_install_group}
use docker_yocto_kirkstone_n.Install.Device.{Paths, RaucInstallArgs, Device}
use docker_yocto_kirkstone_n.Install.Handler.{launch_and_wait_default_handler}

unfoldable pub verify_compatible : RaucConfig → RaucInstallArgs → RaucManifest → Result (Unit {0})
verify_compatible config args manifest =
    if args.ignore_compatible
    then ok tt
    else if opt_eq config.system_compatible manifest.update_compatible
    then ok tt
    else err install_compat_mismatch

abbrev pub is_at_least : Result Bool → Result (Unit {0})
is_at_least (ok true) = ok tt
is_at_least (ok false) = err install_version_mismatch
is_at_least (err e) = err e

abbrev pub version_within : SemverGlib → Str → Option Str → Result (Unit {0})
version_within g min_version none = err install_version_mismatch
version_within g min_version (some version) = is_at_least (less_equal g min_version version)

abbrev pub version_limit : SemverGlib → Option Str → Bool → Option Str → Result (Unit {0})
version_limit g none ignored version = ok tt
version_limit g (some min_version) true version = ok tt
version_limit g (some min_version) false version = version_within g min_version version

unfoldable pub check_version_limits :
    SemverGlib → RaucConfig → RaucInstallArgs → RaucManifest → Result (Unit {0})
check_version_limits g config args manifest =
    version_limit g config.system_min_bundle_version args.ignore_version_limit
      manifest.update_version

-- What check_bundle() finds: the manifest if it is outside of the payload.
pub record RaucBundle : Type 0 where
  pub manifest : Option RaucManifest
  pub was_encrypted : Bool

-- The operations of the other components on bundles and programs.
pub record Bundles (S : Type 0) : Type 0 where
  -- whether install_info->mounted_bundle is set
  pub has_mounted_bundle : S → Bool
  -- the slots with their external mount points
  pub update_external_mount_points : List RaucSlot → Exec S (List RaucSlot)
  pub check_bundle : Str → Exec S RaucBundle
  -- the mount point, and the manifest, which is inside of a plain bundle
  pub mount_bundle : RaucBundle → Exec S (Str × RaucManifest)
  -- umount_bundle() if there is a mount point, with its errors ignored
  pub umount_bundle : RaucBundle → S → S
  -- launch_and_wait_handler() with the environment for the bundle
  pub run_handler : Str → Str → RaucManifest → TargetGroup → Exec S (Unit {0})
  -- the hook `install-check`
  pub run_install_check : RaucManifest → Str → Exec S (Unit {0})
  pub launch_and_wait_custom_handler : Str → RaucManifest → TargetGroup → Exec S (Unit {0})

abbrev pub is_crypt : Option RaucManifest → Bool
is_crypt none = false
is_crypt (some manifest) = by_format manifest.bundle_format
  where
    by_format : RManifestBundleFormat → Bool
    by_format format_crypt = true
    by_format format_plain = false
    by_format format_verity = false
    by_format (other_format n) = false

-- Only a hook that sets an error refuses the bundle.
abbrev pub hook_error : {S : Type 0} → Error → Exec S (Unit {0})
hook_error unset_error = pure tt
hook_error e = raise e

module _ {S : Type 0} (g : SemverGlib) (pattern_match : Str → Str → Bool) (f : Features) (p : Paths)
    (d : Device S) (b : Bundles S) (config : RaucConfig) (args : RaucInstallArgs) where
  abbrev pub run_configured : Option Str → Str → RaucManifest → TargetGroup → Exec S (Unit {0})
  run_configured none mount_point manifest group = pure tt
  run_configured (some handler) mount_point manifest group =
      b.run_handler handler mount_point manifest group

  -- The hook of the bundle may stand in for the check of the compatible.
  abbrev pub check_compatible : Bool → Str → RaucManifest → Exec S (Unit {0})
  check_compatible true mount_point manifest =
      catch (b.run_install_check manifest mount_point) pure hook_error
  check_compatible false mount_point manifest = lift (verify_compatible config args manifest)

  unfoldable pub accept_bundle : Str → RaucManifest → Exec S (Unit {0})
  accept_bundle mount_point manifest =
      check_compatible manifest.hooks.install_check mount_point manifest
      >> lift (check_version_limits g config args manifest)

  abbrev pub run_installation : Option Str → Str → RaucManifest → TargetGroup → Exec S (Unit {0})
  run_installation none mount_point manifest group =
      launch_and_wait_default_handler p d config args manifest pattern_match f mount_point group
  run_installation (some handler) mount_point manifest group =
      b.launch_and_wait_custom_handler mount_point manifest group

  -- From the mounted bundle to the label `umount`.
  unfoldable pub install_mounted_bundle : TargetGroup → Str × RaucManifest → Exec S (Unit {0})
  install_mounted_bundle group mounted =
      run_configured config.preinstall_handler mounted.0 mounted.1 group
      >> (accept_bundle mounted.0 mounted.1
          >> (run_installation mounted.1.handler_name mounted.0 mounted.1 group
              >> run_configured config.postinstall_handler mounted.0 mounted.1 group))

  abbrev pub then_umount : RaucBundle → Result (Unit {0}) × S → Result (Unit {0}) × S
  then_umount bundle (r, s) = (r, b.umount_bundle bundle s)

  -- From the checked bundle on; it is unmounted in every case.
  abbrev pub install_checked : TargetGroup → RaucBundle → Exec S (Unit {0})
  install_checked group bundle s =
      then_umount bundle ((b.mount_bundle bundle >>= install_mounted_bundle group) s)

  unfoldable pub do_install_bundle : Exec S (Unit {0})
  do_install_bundle = λ s.
      (fail_if (b.has_mounted_bundle s) aborted
          >> fail_if (not config.slot_states_determined) aborted
          >> (b.update_external_mount_points config.slots >>= λ slots.
              b.check_bundle args.name >>= λ bundle.
              fail_if (is_crypt bundle.manifest && not bundle.was_encrypted) install_rejected
              >> install_checked (determine_target_install_group slots) bundle))
        s
