-- ===== src/Config.antt =====
-- kirkstone/local/rauc/src/config_file.c: the parents of the slots after load_config has read them, and
-- the names of the artifact repositories.
pub mod Links
pub mod Parents
pub mod Formats
use docker_yocto_kirkstone_n.Prelude.{
  ℕ, zero, suc, Bool, List, [], ◌∷◌, Option, none, some, Str, str_eq, is_some, find_first, map,
  if◌then◌else◌,
}
use docker_yocto_kirkstone_n.Exec.{
  Result, ok, err, Exec, pure, raise, lift, fail_if, for_each, ◌>>=◌, ◌>>◌, config_parent_loop,
  config_duplicate_class, aborted,
}
use docker_yocto_kirkstone_n.Slot.{RaucSlot, lookup}
use docker_yocto_kirkstone_n.Context.{RArtifactRepo}

-- A pointer to a slot that is not in the table does not occur.
abbrev pub linked : Option RaucSlot → Result RaucSlot
linked none = err aborted
linked (some slot) = ok slot

abbrev pub followed : Result RaucSlot → (RaucSlot → Result RaucSlot) → Result RaucSlot
followed (err e) further = err e
followed (ok up) further = further up

abbrev pub to_parent :
    List RaucSlot → Option Str → RaucSlot → (RaucSlot → Result RaucSlot) → Result RaucSlot
to_parent slots none slot further = ok slot
to_parent slots (some p) slot further = followed (linked (lookup slots p)) further

-- The loop over the parents, by the number of steps that are left.
unfoldable pub real_parent : List RaucSlot → ℕ → RaucSlot → Result RaucSlot
real_parent slots zero slot = to_parent slots slot.parent slot (λ up. err config_parent_loop)
real_parent slots (suc left) slot = to_parent slots slot.parent slot (real_parent slots left)

-- slot->parent = realparent
unfoldable pub set_parent : Str → Str → List RaucSlot → List RaucSlot
set_parent name p [] = []
set_parent name p (s ∷ slots) =
    let rest = set_parent name p slots in
    if str_eq s.name name then record s { parent = some p } ∷ rest else s ∷ rest

abbrev pub link_to : Str → Str → RaucSlot → Exec (List RaucSlot) (Unit {0})
link_to name p realparent slots =
    if str_eq realparent.name p
    then (ok tt, slots)
    else (ok tt, set_parent name realparent.name slots)

abbrev pub fix_parent : Str → Option Str → Exec (List RaucSlot) (Unit {0})
fix_parent name none = pure tt
fix_parent name (some p) = λ slots.
    (lift (linked (lookup slots p)) >>= λ parent.
    lift (real_parent slots 100 parent) >>= link_to name p)
      slots

abbrev pub fix_slot : Str → Exec (List RaucSlot) (Unit {0})
fix_slot name =
    λ slots. (lift (linked (lookup slots name)) >>= λ slot. fix_parent name slot.parent) slots

-- The iteration over the table sees the changes that it has made.
unfoldable pub fix_grandparent_links : Exec (List RaucSlot) (Unit {0})
fix_grandparent_links slots = for_each fix_slot (map (λ s. s.name) slots) slots

abbrev pub check_class : List RArtifactRepo → RaucSlot → Exec (List RaucSlot) (Unit {0})
check_class repos slot =
    fail_if (is_some (find_first (λ r. str_eq r.name slot.sclass) repos)) config_duplicate_class

unfoldable pub check_unique_slotclasses : List RArtifactRepo → Exec (List RaucSlot) (Unit {0})
check_unique_slotclasses repos slots = for_each (check_class repos) slots slots
