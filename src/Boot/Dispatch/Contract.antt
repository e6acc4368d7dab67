-- ===== src/Boot/Dispatch/Contract.antt =====
-- The functions r_boot_* as one boot loader, whichever backend they call.
use docker_yocto_kirkstone_n.Prelude.{
  ◌≡◌, ◌≢◌, ◌↔◌, refl, sym, ap, ◌∙◌, codes, str_eq, true, List, ◌∷◌, none, some, Str, find_first,
  find_first_sound, All, ◌⊎◌, ◌<◌, ◌^◌, arith,
}
use docker_yocto_kirkstone_n.Exec.{ok}
use docker_yocto_kirkstone_n.Process.{Processes}
use docker_yocto_kirkstone_n.Glib.{Glib, GlibLaws, Graphic, space}
use docker_yocto_kirkstone_n.Slot.{RaucSlot}
use docker_yocto_kirkstone_n.Context.{RaucConfig}
use docker_yocto_kirkstone_n.Boot.Hygiene.{BootName, BootNames}
use docker_yocto_kirkstone_n.Boot.Owners.{Owns, opt_eq_iff}
use docker_yocto_kirkstone_n.Boot.Grub.Tool.{GrubEditenv}
use docker_yocto_kirkstone_n.Boot.Grub.Primary.{grub_get_primary-grub_set_primary}
use docker_yocto_kirkstone_n.Boot.Uboot.{others_of}
use docker_yocto_kirkstone_n.Boot.Uboot.Tool.{FwEnv}
use docker_yocto_kirkstone_n.Boot.Uboot.State.{order_var}
use docker_yocto_kirkstone_n.Boot.Uboot.Primary.{uboot_get_primary-uboot_set_primary}
use docker_yocto_kirkstone_n.Boot.Custom.Contract.{
  CustomBackend, custom_get_primary-custom_set_primary,
}
use docker_yocto_kirkstone_n.Boot.Efi.Entries.{
  EfiRegex, EfiBootentry, EfiBootorder, is_named, get_efi_entry_by_bootnum,
}
use docker_yocto_kirkstone_n.Boot.Efi.{efi_bootorder_get}
use docker_yocto_kirkstone_n.Boot.Efi.Tool.{EfiBootmgr}
use docker_yocto_kirkstone_n.Boot.Efi.Primary.{efi_get_primary-efi_set_primary}
use mathlib.Core.Path.{subst}
use docker_yocto_kirkstone_n.Boot.Dispatch.{
  Backend, grub, uboot, efi, custom, not_supported, is_supported_bootloader, backend_of,
  backend_get_primary, backend_set_primary, boot_get_primary, boot_set_primary,
}

-- The list of names that the configuration may use and the comparisons of the functions r_boot_*
-- agree: a name is in the list exactly if one of the comparisons fits.
pub is_supported_bootloader_iff :
    (bootloader : Str)
    → is_supported_bootloader bootloader ≡ true ↔ (backend_of (some bootloader) ≢ not_supported)
unfolding is_supported_bootloader backend_of find_first
is_supported_bootloader_iff b = ground arith

-- The entry with a slot's boot name has the name that the slot owns.
entry_owner :
    (slots : List RaucSlot) (slot : RaucSlot) (name : Str) (entries : List EfiBootentry)
    (e : EfiBootentry)
    → Owns slots slot name
    → find_first (is_named slot.bootname) entries ≡ some e
    → Owns slots slot e.name
entry_owner slots slot name entries e o found =
    subst (Owns slots slot)
      (the_name (
        sym o.named
        ∙ opt_eq_iff e.name slot.bootname
            (find_first_sound (is_named slot.bootname) entries found).1))
      o
  where
    the_name : {a b : Str} → some a ≡ some b → a ≡ b
    the_name h = cc

module _ (g : Glib) (laws : GlibLaws g) (x : EfiRegex) (p : Processes) (c : RaucConfig) where
  -- A boot loader's tool that behaves as its manual says, with the configuration it needs.
  pub data BootTool : Type 1 where
    grub_tool :
        (path : Str)
        → c.grubenv_path ≡ some path
        → GrubEditenv p path
        → BootNames c.slots
        → BootTool
    uboot_tool : FwEnv p → c.boot_attempts_primary < 2 ^ 31 → BootTool
    efi_tool : EfiBootmgr x p → BootTool
    custom_tool :
        (backend : Str)
        → c.custom_bootloader_backend ≡ some backend
        → CustomBackend p backend
        → BootTool

  abbrev pub backend : BootTool → Backend
  backend (grub_tool path configured tool names) = grub
  backend (uboot_tool tool small) = uboot
  backend (efi_tool tool) = efi
  backend (custom_tool program configured tool) = custom

  -- The word of the configuration for the boot loader.
  abbrev pub bootloader_name : BootTool → Str
  bootloader_name (grub_tool path configured tool names) = codes "grub"
  bootloader_name (uboot_tool tool small) = codes "uboot"
  bootloader_name (efi_tool tool) = codes "efi"
  bootloader_name (custom_tool program configured tool) = codes "custom"

  backend_of-bootloader_name : (t : BootTool) → backend_of (some (bootloader_name t)) ≡ backend t
  unfolding backend_of str_eq
  backend_of-bootloader_name (grub_tool path configured tool names) = refl
  backend_of-bootloader_name (uboot_tool tool small) = refl
  backend_of-bootloader_name (efi_tool tool) = refl
  backend_of-bootloader_name (custom_tool program configured tool) = refl

  -- When a machine is ready for a slot with this boot name to be made primary. GRUB asks for
  -- nothing; U-Boot has an order of clean names; EFI lists an entry of that name with a number of
  -- its own, and BootNext is used or unset; a custom backend is called with a name without white
  -- space.
  abbrev pub Ready : BootTool → RaucSlot → Str → p.State → Type 0
  Ready (grub_tool path configured tool names) slot name s = Unit {0}
  Ready (uboot_tool tool small) slot name s =
      (current : Str) × (tool.env s order_var ≡ some current)
      × All BootName (name ∷ others_of (some name) (g.strsplit (g.strchomp current) space))
  Ready (efi_tool tool) slot name s =
      (e : EfiBootentry) × (b : EfiBootorder) × (efi_bootorder_get g x p c s ≡ (ok b, s))
      × (find_first (is_named slot.bootname) b.all_entries ≡ some e)
      × (get_efi_entry_by_bootnum b.all_entries e.num ≡ some e)
      × ((c.efi_use_bootnext ≡ true) ⊎ (b.bootnext ≡ none))
  Ready (custom_tool program configured tool) slot name s = Graphic name

  abbrev MadePrimary : Backend → RaucSlot → p.State → Type 0
  MadePrimary b slot s =
      ((backend_set_primary g x p c b slot s).0 ≡ ok tt)
      × ((backend_get_primary g x p c b (backend_set_primary g x p c b slot s).1).0 ≡ ok slot)

  made_primary :
      (t : BootTool) (slot : RaucSlot) (name : Str) (s : p.State)
      → Owns c.slots slot name
      → Ready t slot name s
      → MadePrimary (backend t) slot s
  made_primary (grub_tool path configured tool names) slot name s o r =
      grub_get_primary-grub_set_primary g laws p c path configured tool names slot name s o
  made_primary (uboot_tool tool small) slot name s o (current, e, clean) =
      uboot_get_primary-uboot_set_primary g laws p c tool slot name current s o small e clean
  made_primary (efi_tool tool) slot name s o (e, b, got, entry, known, mode) =
      efi_get_primary-efi_set_primary g laws x p c tool slot e b s
        (entry_owner c.slots slot name b.all_entries e o entry) got entry known mode
  made_primary (custom_tool program configured tool) slot name s o r =
      custom_get_primary-custom_set_primary g laws p c program configured tool slot name s o r

  -- For `grub`, `uboot`, `efi` and `custom` as the configured boot loader alike: where its tool
  -- behaves as its manual says and the machine is ready, r_boot_set_primary succeeds and
  -- r_boot_get_primary then returns the slot, which has to be the only one with its boot name.
  pub boot_get_primary-boot_set_primary :
      (t : BootTool) (slot : RaucSlot) (name : Str) (s : p.State)
      → c.system_bootloader ≡ some (bootloader_name t)
      → Owns c.slots slot name
      → Ready t slot name s
      → ((boot_set_primary g x p c slot s).0 ≡ ok tt)
        × ((boot_get_primary g x p c (boot_set_primary g x p c slot s).1).0 ≡ ok slot)
  unfolding boot_set_primary boot_get_primary
  boot_get_primary-boot_set_primary t slot name s configured o ready =
      subst (λ b. MadePrimary b slot s)
        (sym (ap backend_of configured ∙ backend_of-bootloader_name t))
        (made_primary t slot name s o ready)
