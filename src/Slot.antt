-- ===== src/Slot.antt =====
-- kirkstone/local/rauc/src/slot.c and include/slot.h: slots, and the questions asked of the slot
-- table. The table is the list of its slots in the order in which the hash table yields them; a
-- slot is known by its name, the key of the table, and a pointer to a slot is that name.
mod Types
mod Classes
pub mod Roots
pub use Types.*
unfoldable pub use Classes.{
  split_last, remove_fast, collect_class, collect_classes, get_root_classes,
}
use docker_yocto_kirkstone_n.Prelude.{
  ℕ, zero, suc, ◌≡◌, refl, Bool, true, false, List, [], ◌∷◌, Option, none, some, Str, codes, str_eq,
  opt_eq, length, find_first, keep, is_some, not, ◌&&◌, if◌then◌else◌,
}

-- g_hash_table_lookup(slots, name)
unfoldable pub lookup : List RaucSlot → Str → Option RaucSlot
unfolding find_first str_eq
lookup slots name = find_first (λ s. str_eq s.name name) slots

-- The pointer comparison `slot == other`.
unfoldable pub same : RaucSlot → RaucSlot → Bool
same slot other = str_eq slot.name other.name

unfoldable pub find_by_device : List RaucSlot → Str → Option RaucSlot
unfolding find_first
find_by_device slots device = find_first (λ s. str_eq s.device device) slots

unfoldable pub get_booted : List RaucSlot → Option RaucSlot
unfolding find_first
get_booted slots = find_first (λ s. is_booted s.state) slots

-- `none` stands for the abort by g_error().
unfoldable pub slotstate_to_str : SlotState → Option Str
slotstate_to_str active = some (codes "active")
slotstate_to_str inactive = some (codes "inactive")
slotstate_to_str booted = some (codes "booted")
slotstate_to_str unknown = none

unfoldable pub str_to_slotstate : Option Str → SlotState
str_to_slotstate str =
    if opt_eq str (some (codes "active"))
    then active
    else if opt_eq str (some (codes "inactive"))
    then inactive
    else if opt_eq str (some (codes "booted"))
    then booted
    else unknown

abbrev supported_slot_types : List RaucSlotType
supported_slot_types =
    record { name = codes "raw"; mountable = false }
    ∷ record { name = codes "ext4"; mountable = true }
    ∷ record { name = codes "ubifs"; mountable = true }
    ∷ record { name = codes "ubivol"; mountable = false }
    ∷ record { name = codes "nand"; mountable = false }
    ∷ record { name = codes "nor"; mountable = false }
    ∷ record { name = codes "boot-emmc"; mountable = false }
    ∷ record { name = codes "boot-mbr-switch"; mountable = false }
    ∷ record { name = codes "boot-gpt-switch"; mountable = false }
    ∷ record { name = codes "vfat"; mountable = true }
    ∷ record { name = codes "boot-raw-fallback"; mountable = false }
    ∷ []

unfoldable pub is_valid_type : Str → Bool
unfolding find_first
is_valid_type type = is_some (find_first (λ t. str_eq type t.name) supported_slot_types)

mountable_of : Option RaucSlotType → Bool
mountable_of none = false
mountable_of (some t) = t.mountable

unfoldable pub is_mountable : RaucSlot → Bool
unfolding find_first mountable_of
is_mountable slot = mountable_of (find_first (λ t. str_eq slot.type t.name) supported_slot_types)

-- `while (base != NULL && base->parent != NULL) base = base->parent`, a round for each unit of
-- fuel. `none`: the fuel ran out, or a parent is not in the table.
unfoldable pub climb : List RaucSlot → ℕ → RaucSlot → Option RaucSlot
climb slots zero base = none
climb slots (suc fuel) base = elim base.parent [
  | none ↦ some base
  | some p ↦ elim (lookup slots p) [ none ↦ none | some up ↦ climb slots fuel up ]
]

-- No chain of parents without a loop is longer than the table.
unfoldable pub get_parent_root : List RaucSlot → RaucSlot → Option RaucSlot
unfolding climb lookup
get_parent_root slots slot = climb slots (suc (length slots)) slot

-- `none` stands for the NULL list too.
unfoldable pub list_contains : List RaucSlot → RaucSlot → Bool
unfolding find_first same
list_contains slotlist testslot = is_some (find_first (λ s. same s testslot) slotlist)

unfoldable pub get_all_of_class : List RaucSlot → Str → List RaucSlot
unfolding keep
get_all_of_class slots class = keep (λ s. str_eq s.sclass class) slots

-- `parent != r_slot_get_parent_root(slot)`
roots_at : List RaucSlot → RaucSlot → RaucSlot → Bool
roots_at slots parent slot = elim (get_parent_root slots slot) [
  | none ↦ false
  | some root ↦ same parent root
]

unfoldable pub get_all_children : List RaucSlot → RaucSlot → List RaucSlot
unfolding keep roots_at same
get_all_children slots parent = keep (λ s. not (same s parent) && roots_at slots parent s) slots
