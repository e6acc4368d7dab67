-- ===== src/Boot/Efi.antt =====
-- The EFI backend: the boot entries, BootOrder and BootNext, read and written by efibootmgr. The
-- matches of the three regular expressions (GRegex) are parameters.
pub mod Entries
pub mod Tool
pub mod Order
pub mod Primary
pub mod State
use docker_yocto_kirkstone_n.Prelude.{
  ℕ, Bool, true, false, List, [], ◌∷◌, map, Option, none, some, Str, codes, join, opt_eq,
  find_first, is_some, ◌==◌, if◌then◌else◌,
}
use docker_yocto_kirkstone_n.Exec.{
  Result, ok, err, Exec, pure, raise, lift, or_else, catch, ◌>>=◌, ◌>>◌, bootchooser_failed,
  bootchooser_parse_failed, unset_error,
}
use docker_yocto_kirkstone_n.Process.{Processes, communicate, wait_check}
use docker_yocto_kirkstone_n.Glib.{Glib}
use docker_yocto_kirkstone_n.Slot.{RaucSlot}
use docker_yocto_kirkstone_n.Context.{RaucConfig}
use docker_yocto_kirkstone_n.Boot.Efi.Entries.{
  EfiBootentry, EfiBootorder, EfiRegex, comma, is_named, entries_of, get_efi_entry_by_bootnum,
  in_order, remove_first,
}

abbrev pub list_argv : List Str
list_argv = codes "efibootmgr" ∷ []

abbrev pub bootorder_argv : Str → List Str
bootorder_argv order = codes "efibootmgr" ∷ codes "--bootorder" ∷ order ∷ []

abbrev pub bootnext_argv : Str → List Str
bootnext_argv bootnumber = codes "efibootmgr" ∷ codes "--bootnext" ∷ bootnumber ∷ []

-- The entry that BootNext names.
abbrev pub next_entry : List EfiBootentry → Option Str → Option EfiBootentry
next_entry entries none = none
next_entry entries (some bootnum) = get_efi_entry_by_bootnum entries bootnum

abbrev pub with_next : Option EfiBootentry → List EfiBootentry → List EfiBootentry
with_next none entries = entries
with_next (some e) entries = e ∷ entries

module _ (g : Glib) (x : EfiRegex) where
  abbrev pub with_order : List EfiBootentry → Option Str → Option Str → Result EfiBootorder
  with_order entries next none = err bootchooser_failed
  with_order entries next (some matched) = ok (record {
    bootorder_entries = in_order entries (g.strsplit matched comma);
    all_entries = entries;
    bootnext = next_entry entries next;
  })

  -- What the output of efibootmgr says; an error where it has no entry or no order.
  abbrev pub parsed_listing : Str → List (Str × Str) → Result EfiBootorder
  parsed_listing out [] = err bootchooser_failed
  parsed_listing out (m ∷ matches) =
      with_order (entries_of (m ∷ matches)) (x.boot_next out) (x.boot_order out)

module _ (g : Glib) (x : EfiRegex) (p : Processes) (c : RaucConfig) where
  open p use {State}

  unfoldable pub efi_bootorder_set : Str → Exec State (Unit {0})
  efi_bootorder_set order = wait_check p (bootorder_argv order)

  unfoldable pub efi_set_bootnext : Str → Exec State (Unit {0})
  efi_set_bootnext bootnumber = wait_check p (bootnext_argv bootnumber)

  unfoldable pub efi_bootorder_get : Exec State EfiBootorder
  efi_bootorder_get = do
    out ← communicate p list_argv
    lift (parsed_listing g x out (x.boot_entries out))

  unfoldable pub efi_set_temp_primary : RaucSlot → Exec State (Unit {0})
  efi_set_temp_primary slot = do
    b ← efi_bootorder_get
    efi_slot_entry ← or_else (find_first (is_named slot.bootname) b.all_entries) bootchooser_failed
    efi_set_bootnext efi_slot_entry.num

  -- The entries of the new order.
  abbrev pub new_entries : RaucSlot → Bool → EfiBootorder → Result (List EfiBootentry)
  new_entries slot false b = ok (remove_first (is_named slot.bootname) b.bootorder_entries)
  new_entries slot true b = elim (find_first (is_named slot.bootname) b.all_entries) [
    | none ↦ err bootchooser_failed
    | some e ↦ ok (e ∷ remove_first (is_named slot.bootname) b.bootorder_entries)
  ]

  -- The error of efi_bootorder_set is dropped: it is called without a GError.
  unfoldable pub efi_modify_persistent_bootorder : RaucSlot → Bool → Exec State (Unit {0})
  efi_modify_persistent_bootorder slot prepend = do
    b ← efi_bootorder_get
    entries ← lift (new_entries slot prepend b)
    catch (efi_bootorder_set (join (map (λ e. e.num) entries) comma)) pure (λ e. raise unset_error)

  unfoldable pub efi_set_state : RaucSlot → Bool → Exec State (Unit {0})
  efi_set_state slot good = efi_modify_persistent_bootorder slot good

  -- The first entry, in order, that is a slot's.
  unfoldable pub efi_scan : List EfiBootentry → Option RaucSlot
  efi_scan [] = none
  efi_scan (e ∷ entries) = elim (find_first (λ s. opt_eq (some e.name) s.bootname) c.slots) [
    | some slot ↦ some slot
    | none ↦ efi_scan entries
  ]

  unfoldable pub efi_get_primary : Exec State RaucSlot
  efi_get_primary = do
    b ← efi_bootorder_get
    or_else (efi_scan (with_next b.bootnext b.bootorder_entries)) bootchooser_parse_failed

  unfoldable pub efi_set_primary : RaucSlot → Exec State (Unit {0})
  efi_set_primary slot =
      if c.efi_use_bootnext
      then efi_set_temp_primary slot
      else efi_modify_persistent_bootorder slot true

  unfoldable pub efi_get_state : RaucSlot → Exec State Bool
  efi_get_state slot = do
    b ← efi_bootorder_get
    pure (is_some (find_first (is_named slot.bootname) b.bootorder_entries))
