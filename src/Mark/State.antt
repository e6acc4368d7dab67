-- ===== src/Mark/State.antt =====
-- r_mark_good and r_mark_bad (kirkstone/local/rauc/src/mark.c) on the configured boot loader.
use docker_yocto_kirkstone_n.Prelude.{◌≡◌, ◌≢◌, sym, ap, ◌∙◌, true, false, some, Str, codes, str_eq}
use docker_yocto_kirkstone_n.Exec.{
  Error, ok, Exec, pure, raise, catch, install_mark_bootable, unset_error, aborted,
}
use docker_yocto_kirkstone_n.Process.{Processes}
use docker_yocto_kirkstone_n.Glib.{Glib, GlibLaws}
use docker_yocto_kirkstone_n.Slot.{RaucSlot}
use docker_yocto_kirkstone_n.Context.{RaucConfig}
use docker_yocto_kirkstone_n.Boot.Hygiene.{BootName, BootNames}
use docker_yocto_kirkstone_n.Boot.Efi.Entries.{EfiRegex}
use docker_yocto_kirkstone_n.Boot.Grub.{grub_set_state, grub_get_primary}
use docker_yocto_kirkstone_n.Boot.Grub.Tool.{GrubEditenv}
use docker_yocto_kirkstone_n.Boot.Grub.State.{grub_set_state_lem}
use docker_yocto_kirkstone_n.Boot.Grub.Bad.{grub_get_primary-grub_set_state_bad}
use docker_yocto_kirkstone_n.Boot.Dispatch.{
  grub, backend_of, backend_get_primary, boot_set_state, boot_get_primary,
}

-- The message of the backend's error is read; there is none where the backend set no error.
abbrev pub mark_error : Error → Error
mark_error unset_error = aborted
mark_error aborted = aborted
mark_error _ = install_mark_bootable

module _ (g : Glib) (x : EfiRegex) (p : Processes) (c : RaucConfig) where
  open p use {State}

  unfoldable pub mark_good : RaucSlot → Exec State (Unit {0})
  mark_good slot = catch (boot_set_state g x p c slot true) pure (λ e. raise (mark_error e))

  unfoldable pub mark_bad : RaucSlot → Exec State (Unit {0})
  mark_bad slot = catch (boot_set_state g x p c slot false) pure (λ e. raise (mark_error e))

module _ (g : Glib) (laws : GlibLaws g) (x : EfiRegex) (p : Processes) (c : RaucConfig) (path : Str)
    (configured : c.grubenv_path ≡ some path) (tool : GrubEditenv p path)
    (loader : c.system_bootloader ≡ some (codes "grub")) where
  by_grub : backend_of c.system_bootloader ≡ grub
  unfolding backend_of str_eq
  by_grub = rw loader

  mark_bad_lem :
      (slot : RaucSlot) (name : Str) (s : p.State)
      → slot.bootname ≡ some name
      → BootName name
      → mark_bad g x p c slot s ≡ grub_set_state g p c slot false s
  unfolding mark_bad boot_set_state
  mark_bad_lem slot name s named h =
      rw (by_grub, grub_set_state_lem g laws p c path configured tool slot name false s named h)

  -- With GRUB as the configured boot loader, r_mark_bad succeeds for a slot with a boot name, and
  -- whenever r_boot_get_primary returns a slot after it, that slot has another boot name. Every boot
  -- name of the table, and the slot's, has to be free of white space and `=`.
  pub boot_get_primary-mark_bad :
      (slot : RaucSlot) (name : Str) (s : p.State)
      → slot.bootname ≡ some name
      → BootName name
      → BootNames c.slots
      → ((mark_bad g x p c slot s).0 ≡ ok tt)
        × ((primary : RaucSlot) (s' : p.State)
            → boot_get_primary g x p c (mark_bad g x p c slot s).1 ≡ (ok primary, s')
            → primary.bootname ≢ some name)
  unfolding boot_get_primary
  boot_get_primary-mark_bad slot name s named h names =
      let set = mark_bad_lem slot name s named h in
      (
        ap (λ r. r.0)
            (set ∙ grub_set_state_lem g laws p c path configured tool slot name false s named h),
        λ primary s' got.
            grub_get_primary-grub_set_state_bad g laws p c path configured tool slot name named h
              primary s s' names
              (ap (λ r. grub_get_primary g p c r.1) (sym set)
                ∙ sym (ap (λ b. backend_get_primary g x p c b (mark_bad g x p c slot s).1) by_grub)
                ∙ got),
      )
