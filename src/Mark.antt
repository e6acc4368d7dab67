-- ===== src/Mark.antt =====
-- kirkstone/local/rauc/src/mark.c: the slot that `rauc status mark-...` names.
pub mod Named
pub mod State
use docker_yocto_kirkstone_n.Prelude.{
  ℕ, Bool, true, false, not, ◌&&◌, List, Option, none, some, Str, codes, str_eq, find_first,
  is_some, length, ◌==◌, if◌then◌else◌,
}
use docker_yocto_kirkstone_n.Exec.{Result, ok, err, slot_no_booted, slot_failed}
use docker_yocto_kirkstone_n.Glib.{Glib}
use docker_yocto_kirkstone_n.Slot.{RaucSlot, same, lookup, get_booted}

abbrev pub dot : ℕ
dot = b'.'

-- A root slot of the booted slot's class with a boot name, and not the booted slot. Classes are
-- interned texts, so that the code compares pointers.
unfoldable pub is_other_bootable : RaucSlot → RaucSlot → Bool
is_other_bootable b s =
    str_eq s.sclass b.sclass && not (is_some s.parent) && is_some s.bootname && not (same s b)

abbrev pub found_or : Option RaucSlot → Result RaucSlot
found_or none = err slot_failed
found_or (some s) = ok s

abbrev pub with_bootname : RaucSlot → Result RaucSlot
with_bootname s = if is_some s.bootname then ok s else err slot_failed

abbrev pub bootable : Option RaucSlot → Result RaucSlot
bootable none = err slot_failed
bootable (some s) = with_bootname s

abbrev pub booted_slot : Option RaucSlot → Result RaucSlot
booted_slot none = err slot_no_booted
booted_slot (some b) = ok b

abbrev pub other_slot : List RaucSlot → Option RaucSlot → Result RaucSlot
other_slot slots none = err slot_no_booted
other_slot slots (some b) = found_or (find_first (is_other_bootable b) slots)

-- `<class>.<index>`
abbrev pub named_slot : Glib → List RaucSlot → Str → Result RaucSlot
named_slot g slots identifier =
    if length (g.strsplit identifier dot) == 2
    then bootable (lookup slots identifier)
    else err slot_failed

unfoldable pub get_slot_by_identifier : Glib → List RaucSlot → Str → Result RaucSlot
get_slot_by_identifier g slots identifier =
    if str_eq identifier (codes "booted")
    then booted_slot (get_booted slots)
    else if str_eq identifier (codes "other")
    then other_slot slots (get_booted slots)
    else named_slot g slots identifier
