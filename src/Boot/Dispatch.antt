-- ===== src/Boot/Dispatch.antt =====
-- The functions r_boot_* that call the backend of the configured boot loader. The prefix that they
-- put before the message of a backend's error is left out, as messages are.
pub mod Contract
use docker_yocto_kirkstone_n.Prelude.{
  ℕ, Bool, true, false, List, [], ◌∷◌, Option, none, some, Str, codes, str_eq, opt_eq, find_first,
  is_some, if◌then◌else◌,
}
use docker_yocto_kirkstone_n.Exec.{
  Result, ok, err, Exec, pure, raise, or_else, ◌>>=◌, bootchooser_not_supported, aborted,
}
use docker_yocto_kirkstone_n.Process.{Processes}
use docker_yocto_kirkstone_n.Glib.{Glib}
use docker_yocto_kirkstone_n.Slot.{RaucSlot}
use docker_yocto_kirkstone_n.Context.{RaucConfig}
use docker_yocto_kirkstone_n.Boot.Grub.{
  grub_get_state, grub_set_state, grub_get_primary, grub_set_primary,
}
use docker_yocto_kirkstone_n.Boot.Uboot.{
  uboot_get_state, uboot_set_state, uboot_get_primary, uboot_set_primary,
}
use docker_yocto_kirkstone_n.Boot.Barebox.{
  barebox_get_state, barebox_set_state, barebox_get_primary, barebox_set_primary,
}
use docker_yocto_kirkstone_n.Boot.Custom.{
  custom_get_state, custom_set_state, custom_get_primary, custom_set_primary,
}
use docker_yocto_kirkstone_n.Boot.Efi.Entries.{EfiRegex}
use docker_yocto_kirkstone_n.Boot.Efi.{
  efi_get_state, efi_set_state, efi_get_primary, efi_set_primary,
}

abbrev pub supported_bootloaders : List Str
supported_bootloaders =
    codes "barebox"
    ∷ codes "grub"
    ∷ codes "uboot"
    ∷ codes "efi"
    ∷ codes "custom"
    ∷ codes "noop"
    ∷ []

-- g_strv_contains()
unfoldable pub is_supported_bootloader : Str → Bool
unfolding find_first str_eq
is_supported_bootloader bootloader =
    is_some (find_first (λ b. str_eq bootloader b) supported_bootloaders)

-- What the chain of comparisons with system_bootloader arrives at.
pub data Backend : Type 0 where
  barebox grub uboot efi custom noop : Backend
  not_supported : Backend

unfoldable pub backend_of : Option Str → Backend
unfolding str_eq
backend_of system_bootloader =
    if opt_eq system_bootloader (some (codes "barebox"))
    then barebox
    else if opt_eq system_bootloader (some (codes "grub"))
    then grub
    else if opt_eq system_bootloader (some (codes "uboot"))
    then uboot
    else if opt_eq system_bootloader (some (codes "efi"))
    then efi
    else if opt_eq system_bootloader (some (codes "custom"))
    then custom
    else if opt_eq system_bootloader (some (codes "noop"))
    then noop
    else not_supported

module _ (g : Glib) (x : EfiRegex) (p : Processes) (c : RaucConfig) where
  open p use {State}

  abbrev pub backend_get_state : Backend → RaucSlot → Exec State Bool
  backend_get_state barebox slot = barebox_get_state g p c slot
  backend_get_state grub slot = grub_get_state g p c slot
  backend_get_state uboot slot = uboot_get_state g p c slot
  backend_get_state efi slot = efi_get_state g x p c slot
  backend_get_state custom slot = custom_get_state g p c slot
  backend_get_state noop slot = raise bootchooser_not_supported
  backend_get_state not_supported slot = raise bootchooser_not_supported

  -- The assertion aborts for a slot without a boot name.
  unfoldable pub boot_get_state : RaucSlot → Exec State Bool
  boot_get_state slot = do
    name ← or_else slot.bootname aborted
    backend_get_state (backend_of c.system_bootloader) slot

  abbrev pub backend_set_state : Backend → RaucSlot → Bool → Exec State (Unit {0})
  backend_set_state barebox slot good = barebox_set_state g p c slot good
  backend_set_state grub slot good = grub_set_state g p c slot good
  backend_set_state uboot slot good = uboot_set_state g p c slot good
  backend_set_state efi slot good = efi_set_state g x p c slot good
  backend_set_state custom slot good = custom_set_state g p c slot good
  backend_set_state noop slot good = pure tt
  backend_set_state not_supported slot good = raise bootchooser_not_supported

  unfoldable pub boot_set_state : RaucSlot → Bool → Exec State (Unit {0})
  boot_set_state slot good = backend_set_state (backend_of c.system_bootloader) slot good

  abbrev pub backend_get_primary : Backend → Exec State RaucSlot
  backend_get_primary barebox = barebox_get_primary g p c
  backend_get_primary grub = grub_get_primary g p c
  backend_get_primary uboot = uboot_get_primary g p c
  backend_get_primary efi = efi_get_primary g x p c
  backend_get_primary custom = custom_get_primary g p c
  backend_get_primary noop = raise bootchooser_not_supported
  backend_get_primary not_supported = raise bootchooser_not_supported

  unfoldable pub boot_get_primary : Exec State RaucSlot
  boot_get_primary = backend_get_primary (backend_of c.system_bootloader)

  abbrev pub backend_set_primary : Backend → RaucSlot → Exec State (Unit {0})
  backend_set_primary barebox slot = barebox_set_primary g p c slot
  backend_set_primary grub slot = grub_set_primary g p c slot
  backend_set_primary uboot slot = uboot_set_primary g p c slot
  backend_set_primary efi slot = efi_set_primary g x p c slot
  backend_set_primary custom slot = custom_set_primary g p c slot
  backend_set_primary noop slot = pure tt
  backend_set_primary not_supported slot = raise bootchooser_not_supported

  unfoldable pub boot_set_primary : RaucSlot → Exec State (Unit {0})
  boot_set_primary slot = backend_set_primary (backend_of c.system_bootloader) slot
