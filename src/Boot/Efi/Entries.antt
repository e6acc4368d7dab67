-- ===== src/Boot/Efi/Entries.antt =====
-- The boot entries that efibootmgr lists.
use docker_yocto_kirkstone_n.Prelude.{
  ℕ, Bool, List, [], ◌∷◌, map, Option, none, some, Str, str_eq, opt_eq, find_first, ◌==◌,
  if◌then◌else◌,
}

-- The field `active` of the struct is neither read nor set.
pub record EfiBootentry : Type 0 where
  pub num : Str
  pub name : Str

-- What efi_bootorder_get returns.
pub record EfiBootorder : Type 0 where
  pub bootorder_entries : List EfiBootentry
  pub all_entries : List EfiBootentry
  pub bootnext : Option EfiBootentry

-- The matches of `^Boot([0-9a-fA-F]{4})[\* ] (.+)$`, `^BootNext: ([0-9a-fA-F]{4})$` and
-- `^BootOrder: (\S+)$` in a text: what their groups hold.
pub record EfiRegex : Type 0 where
  pub boot_entries : Str → List (Str × Str)
  pub boot_next : Str → Option Str
  pub boot_order : Str → Option Str

abbrev pub comma : ℕ
comma = b','

abbrev pub tab : ℕ
tab = b'\t'

-- What stands before the first tab.
unfoldable pub before_tab : Str → Str
before_tab [] = []
before_tab (c ∷ s) = let rest = before_tab s in if c == tab then [] else c ∷ rest

abbrev pub entry_of : Str × Str → EfiBootentry
entry_of (num, text) = record { num = num; name = before_tab text }

abbrev pub entries_of : List (Str × Str) → List EfiBootentry
entries_of matches = map entry_of matches

-- g_strcmp0(efi->name, slot->bootname) == 0
abbrev pub is_named : Option Str → EfiBootentry → Bool
is_named bootname e = opt_eq (some e.name) bootname

unfoldable pub get_efi_entry_by_bootnum : List EfiBootentry → Str → Option EfiBootentry
get_efi_entry_by_bootnum entries bootnum = find_first (λ e. str_eq bootnum e.num) entries

abbrev pub append_entry : Option EfiBootentry → List EfiBootentry → List EfiBootentry
append_entry none entries = entries
append_entry (some e) entries = e ∷ entries

-- The loop over the numbers of the order; a number without an entry is left out.
unfoldable pub in_order : List EfiBootentry → List Str → List EfiBootentry
in_order entries [] = []
in_order entries (n ∷ bootnumorder) =
    append_entry (get_efi_entry_by_bootnum entries n) (in_order entries bootnumorder)

-- The loop that removes the first entry that fits.
unfoldable pub remove_first : (EfiBootentry → Bool) → List EfiBootentry → List EfiBootentry
remove_first fits [] = []
remove_first fits (e ∷ entries) =
    let rest = remove_first fits entries in if fits e then entries else e ∷ rest
