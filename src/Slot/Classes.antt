-- ===== src/Slot/Classes.antt =====
-- r_slot_get_root_classes of kirkstone/local/rauc/src/slot.c.
use docker_yocto_kirkstone_n.Prelude.{
  List, [], ◌∷◌, ◌++◌, Option, none, some, Str, str_eq, if◌then◌else◌,
}
use docker_yocto_kirkstone_n.Slot.Types.{RaucSlot}

-- The last element, and those before it.
unfoldable pub split_last : List Str → Option (List Str × Str)
split_last [] = none
split_last (x ∷ xs) = elim (split_last xs) [
  | none ↦ some ([], x)
  | some (front, last) ↦ some (x ∷ front, last)
]

-- The last element takes the place of the one removed.
abbrev pub fill_gap : List Str → List Str
fill_gap rest = elim (split_last rest) [ none ↦ [] | some (front, last) ↦ last ∷ front ]

-- g_ptr_array_remove_fast: the first occurrence goes.
unfoldable pub remove_fast : List Str → Str → List Str
unfolding split_last
remove_fast [] key = []
remove_fast (x ∷ xs) key =
    let rest = remove_fast xs key in if str_eq x key then fill_gap xs else x ∷ rest

-- One round of the loop over the slots.
unfoldable pub collect_class : List Str → RaucSlot → List Str
unfolding remove_fast
collect_class slotclasses slot = elim slot.parent [
  | some p ↦ slotclasses
  | none ↦ remove_fast slotclasses slot.sclass ++ (slot.sclass ∷ [])
]

unfoldable pub collect_classes : List Str → List RaucSlot → List Str
unfolding collect_class
collect_classes slotclasses [] = slotclasses
collect_classes slotclasses (s ∷ slots) = collect_classes (collect_class slotclasses s) slots

unfoldable pub get_root_classes : List RaucSlot → List Str
unfolding collect_classes
get_root_classes slots = collect_classes [] slots
