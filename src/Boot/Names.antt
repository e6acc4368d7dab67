-- ===== src/Boot/Names.antt =====
-- Boot names in texts: the boot order as a text, and the search for a name in it.
use docker_yocto_kirkstone_n.Prelude.{
  ℕ, ◌≡◌, sym, ap, ◌∙◌, inl, inr, Option-cases, Bool, true, false, List, [], ◌∷◌, ◌++◌,
  append_assoc, append-nil, Option, none, some, Str, codes, str_eq, join, find_first, is_some,
  if◌then◌else◌, arith,
}
use docker_yocto_kirkstone_n.Slot.{RaucSlot, same}
use docker_yocto_kirkstone_n.Glib.{space}

-- A GString: g_strchomp() on its text leaves its length as it was.
pub record GString : Type 0 where
  pub str : Str
  pub len : ℕ

-- `%s` prints NULL as (null).
abbrev pub or_null : Option Str → Str
or_null none = codes "(null)"
or_null (some s) = s

-- g_string_new(NULL) is the empty string.
abbrev pub or_empty : Option Str → Str
or_empty none = []
or_empty (some s) = s

-- One round of the loop over the slots: the name of another bootable slot behind a space.
abbrev pub append_bootname : RaucSlot → Str → RaucSlot → Option Str → Str
append_bootname slot order s none = order
append_bootname slot order s (some name) = if same s slot then order else order ++ (space ∷ name)

unfoldable pub append_bootnames : RaucSlot → Str → List RaucSlot → Str
unfolding same
append_bootnames slot order [] = order
append_bootnames slot order (s ∷ slots) =
    append_bootnames slot (append_bootname slot order s s.bootname) slots

unfoldable pub bootchooser_order_primary : List RaucSlot → RaucSlot → Str
unfolding append_bootnames
bootchooser_order_primary slots slot = append_bootnames slot (or_empty slot.bootname) slots

-- Whether a name is one of the parts of the boot order.
unfoldable pub is_listed : List Str → Str → Bool
unfolding find_first
is_listed bootnames name = is_some (find_first (λ b. str_eq b name) bootnames)

abbrev pub push_name : Option Str → Bool → List Str → List Str
push_name none skip rest = rest
push_name (some name) true rest = rest
push_name (some name) false rest = name ∷ rest

-- The names of the other bootable slots, in the order of the table.
unfoldable pub other_bootnames : RaucSlot → List RaucSlot → List Str
unfolding same
other_bootnames slot [] = []
other_bootnames slot (s ∷ slots) = push_name s.bootname (same s slot) (other_bootnames slot slots)

-- Every part behind a space.
unfoldable pub spaced : List Str → Str
spaced [] = []
spaced (b ∷ bs) = (space ∷ b) ++ spaced bs

pub join-spaced : (b : Str) (bs : List Str) → join (b ∷ bs) space ≡ b ++ spaced bs
unfolding join spaced
join-spaced b [] = sym (append-nil b)
join-spaced b (x ∷ bs) = rw (join-spaced x bs)

append_bootnames-spaced :
    (slot : RaucSlot) (order : Str) (slots : List RaucSlot)
    → append_bootnames slot order slots ≡ order ++ spaced (other_bootnames slot slots)
unfolding append_bootnames other_bootnames spaced
append_bootnames-spaced slot order [] = sym (append-nil order)
append_bootnames-spaced slot order (s ∷ slots) = elim (Option-cases s.bootname) [
  | inl e ↦ ground (arith, append_bootnames-spaced slot order slots)
  | inr (name, e) ↦ ground (
    arith,
    append_bootnames-spaced slot order slots,
    append_bootnames-spaced slot (order ++ (space ∷ name)) slots,
    append_assoc order (space ∷ name) (spaced (other_bootnames slot slots)),
  )
]

-- The boot order for a slot is its name and those of the others, with a space between them.
pub bootchooser_order_primary-join :
    (slots : List RaucSlot) (slot : RaucSlot) {name : Str}
    → slot.bootname ≡ some name
    → bootchooser_order_primary slots slot ≡ join (name ∷ other_bootnames slot slots) space
unfolding bootchooser_order_primary
bootchooser_order_primary-join slots slot {name} e =
    ap (λ o. append_bootnames slot (or_empty o) slots) e
    ∙ append_bootnames-spaced slot name slots
    ∙ sym (join-spaced name (other_bootnames slot slots))
