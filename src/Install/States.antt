-- ===== src/Install/States.antt =====
-- determine_slot_states: which slot is booted, and which slots belong to it.
use docker_yocto_kirkstone_n.Prelude.{
  Bool, true, false, ◌||◌, List, map, Option, none, some, Str, codes, str_eq, opt_eq, find_first,
  if◌then◌else◌,
}
use docker_yocto_kirkstone_n.Exec.{
  Exec, pure, raise, slot_no_config, slot_no_bootslot, slot_no_booted,
}
use docker_yocto_kirkstone_n.Slot.{RaucSlot, SlotState, active, inactive, booted, same}

-- The slot table of the configuration, NULL where none is loaded.
pub record SlotTable : Type 0 where
  pub slots : Option (List RaucSlot)
  pub slot_states_determined : Bool

abbrev pub set_state : RaucSlot → SlotState → RaucSlot
set_state s st = record s { state = st }

abbrev pub realdev : Option Str → Str → Str
realdev none device = device
realdev (some path) device = path

abbrev pub is_child_of : Option Str → RaucSlot → Bool
is_child_of none slot = false
is_child_of (some parent) slot = str_eq parent slot.name

-- The state of a slot where another or it itself is booted.
abbrev pub state_beside : RaucSlot → RaucSlot → SlotState
state_beside b s = if same s b then booted else if is_child_of s.parent b then active else inactive

-- Boots that need no slot.
unfoldable pub is_extboot : Str → Bool
is_extboot bootslot = str_eq bootslot (codes "/dev/nfs") || str_eq bootslot (codes "_external_")

-- realpath() is a parameter: the resolved path of a device, if there is one.
module _ (realpath : Str → Option Str) where
  -- The boot name, the name or the device of the slot is the one that was booted.
  unfoldable pub is_bootslot : Str → RaucSlot → Bool
  is_bootslot bootslot s =
      opt_eq s.bootname (some bootslot)
      || str_eq s.name bootslot
      || str_eq (realdev (realpath s.device) s.device) bootslot

  unfoldable pub find_bootslot : Str → List RaucSlot → Option RaucSlot
  find_bootslot bootslot slots = find_first (is_bootslot bootslot) slots

  -- Every slot beside the one that is booted.
  unfoldable pub with_states : Option RaucSlot → Str → List RaucSlot → Option (List RaucSlot)
  with_states (some b) bootslot slots = some (map (λ s. set_state s (state_beside b s)) slots)
  with_states none bootslot slots =
      if is_extboot bootslot then some (map (λ s. set_state s inactive) slots) else none

  unfoldable pub determine_slot_states : Option Str → Exec SlotTable (Unit {0})
  determine_slot_states bootslot t = elim t.slots [
    | none ↦ raise slot_no_config t
    | some slots ↦ elim bootslot [
      | none ↦ raise slot_no_bootslot t
      | some name ↦ elim (with_states (find_bootslot name slots) name slots) [
        | none ↦ raise slot_no_booted t
        | some slots' ↦ pure tt (record { slots = some slots'; slot_states_determined = true })
      ]
    ]
  ]
