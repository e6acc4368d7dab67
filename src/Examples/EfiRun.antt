-- ===== src/Examples/EfiRun.antt =====
-- The EFI backend run on the board's two entries.
use docker_yocto_kirkstone_n.Prelude.{
  ◌≡◌, refl, false, [], ◌∷◌, none, some, codes, join, str_eq, find_first, is_some, inl,
}
use docker_yocto_kirkstone_n.Exec.{ok}
use docker_yocto_kirkstone_n.Process.{communicate}
use docker_yocto_kirkstone_n.Boot.Efi.Entries.{
  EfiBootentry, EfiBootorder, before_tab, is_named, get_efi_entry_by_bootnum, in_order,
  remove_first,
}
use docker_yocto_kirkstone_n.Boot.Efi.{
  efi_bootorder_get, efi_set_primary, efi_get_primary, efi_set_state, efi_get_state,
}
use docker_yocto_kirkstone_n.Boot.Efi.Primary.{efi_get_primary-efi_set_primary}
use docker_yocto_kirkstone_n.Boot.Efi.State.{NewOrder, efi_get_state-efi_set_state}
use docker_yocto_kirkstone_n.Examples.Split.{pieces, strsplit}
use docker_yocto_kirkstone_n.Examples.GlibModel.{glib, glib_laws}
use docker_yocto_kirkstone_n.Examples.GrubTool.{lacks}
use docker_yocto_kirkstone_n.Examples.EfiTool.{
  BootVars, boot_regex, boot_tools, efi_bootmgr, run, is_num, only_nums,
}
use docker_yocto_kirkstone_n.Examples.Board.{board, rootfs_b, b-Owns}

abbrev entry_a : EfiBootentry
entry_a = record { num = codes "0001"; name = codes "A" }

abbrev entry_b : EfiBootentry
entry_b = record { num = codes "0002"; name = codes "B" }

-- A boots first.
abbrev before : BootVars
before = ([], codes "0001" ∷ codes "0002" ∷ [])

abbrev listed : EfiBootorder
listed = record {
  bootorder_entries = entry_a ∷ entry_b ∷ [];
  all_entries = entry_a ∷ entry_b ∷ [];
  bootnext = none;
}

listed_before : efi_bootorder_get glib boot_regex boot_tools board before ≡ (ok listed, before)
unfolding efi_bootorder_get communicate run is_num only_nums lacks join pieces strsplit in_order
    get_efi_entry_by_bootnum find_first str_eq before_tab
listed_before = refl

b_entry : find_first (is_named rootfs_b.bootname) listed.all_entries ≡ some entry_b
unfolding find_first str_eq
b_entry = refl

b_number : get_efi_entry_by_bootnum listed.all_entries entry_b.num ≡ some entry_b
unfolding get_efi_entry_by_bootnum find_first str_eq
b_number = refl

efi_get_primary-efi_set_primary_example :
    ((efi_set_primary glib boot_regex boot_tools board rootfs_b before).0 ≡ ok tt)
    × ((efi_get_primary glib boot_regex boot_tools board
          (efi_set_primary glib boot_regex boot_tools board rootfs_b before).1).0
        ≡ ok rootfs_b)
efi_get_primary-efi_set_primary_example =
    efi_get_primary-efi_set_primary glib glib_laws boot_regex boot_tools board efi_bootmgr rootfs_b
      entry_b listed before b-Owns listed_before b_entry b_number (inl refl)

a_number : get_efi_entry_by_bootnum listed.all_entries entry_a.num ≡ some entry_a
unfolding get_efi_entry_by_bootnum find_first str_eq
a_number = refl

-- B is marked bad, and A is what is left.
efi_get_state-efi_set_state_example :
    ((efi_set_state glib boot_regex boot_tools board rootfs_b false before).0 ≡ ok tt)
    × NewOrder rootfs_b false listed entry_a []
    × ((b' : EfiBootorder) × (efi_bootorder_get glib boot_regex boot_tools board
            (efi_set_state glib boot_regex boot_tools board rootfs_b false before).1
          ≡ (ok b', (efi_set_state glib boot_regex boot_tools board rootfs_b false before).1))
        × (b'.bootorder_entries ≡ entry_a ∷ [])
        × (b'.all_entries ≡ listed.all_entries))
    × ((efi_get_state glib boot_regex boot_tools board rootfs_b
          (efi_set_state glib boot_regex boot_tools board rootfs_b false before).1).0
        ≡ ok (is_some (find_first (is_named rootfs_b.bootname) (entry_a ∷ []))))
unfolding remove_first str_eq
efi_get_state-efi_set_state_example =
    efi_get_state-efi_set_state glib glib_laws boot_regex boot_tools board efi_bootmgr rootfs_b
      rootfs_b false listed entry_a [] before listed_before refl a_number
