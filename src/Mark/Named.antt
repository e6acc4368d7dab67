-- ===== src/Mark/Named.antt =====
-- What a slot that an identifier names is like.
use docker_yocto_kirkstone_n.Prelude.{
  ◌≡◌, ◌≢◌, refl, sym, ◌∙◌, Bool, true, not, ◌&&◌, List, Option, none, some, Str, codes, str_eq,
  str_eq_iff, find_first, find_first_sound, is_some, length, ◌==◌, In, Bool-cases, Option-cases,
  inl, inr, ◌⊎◌, arith,
}
use mathlib.Core.Path.{subst}
use docker_yocto_kirkstone_n.Exec.{ok}
use docker_yocto_kirkstone_n.Glib.{Glib}
use docker_yocto_kirkstone_n.Slot.{
  RaucSlot, SlotState, unknown, active, inactive, booted, is_booted, same, lookup, get_booted,
}
use docker_yocto_kirkstone_n.Mark.{
  dot, is_other_bootable, found_or, bootable, booted_slot, other_slot, get_slot_by_identifier,
}

abbrev pub HasBootname : RaucSlot → Type 0
HasBootname slot = (name : Str) × (slot.bootname ≡ some name)

-- The slot beside a booted one.
abbrev pub OtherOf : RaucSlot → RaucSlot → Type 0
OtherOf b slot =
    (slot.sclass ≡ b.sclass) × (slot.parent ≡ none) × HasBootname slot × (slot.name ≢ b.name)

-- What the identifier says of the slot.
abbrev pub Means : List RaucSlot → Str → RaucSlot → Type 0
Means slots identifier slot =
    ((identifier ≡ codes "booted") × (slot.state ≡ booted))
    ⊎ ((identifier ≡ codes "other")
        × ((b : RaucSlot) × In b slots × (b.state ≡ booted) × OtherOf b slot))
    ⊎ ((identifier ≡ slot.name) × HasBootname slot)

booted_of : (st : SlotState) → is_booted st ≡ true → st ≡ booted
booted_of unknown h = cc
booted_of active h = cc
booted_of inactive h = cc
booted_of booted h = refl

get_booted_sound :
    (slots : List RaucSlot) (b : RaucSlot)
    → get_booted slots ≡ some b
    → In b slots × (b.state ≡ booted)
unfolding get_booted
get_booted_sound slots b h =
    let (m, e) = find_first_sound (λ s. is_booted s.state) slots h in (m, booted_of b.state e)

has_bootname : (slot : RaucSlot) → is_some slot.bootname ≡ true → HasBootname slot
has_bootname slot h = elim (Option-cases slot.bootname) [
  | inl e ↦ cc (rw e at h)
  | inr (name, e) ↦ (name, e)
]

no_parent : (o : Option Str) → not (is_some o) ≡ true → o ≡ none
no_parent none h = refl
no_parent (some p) h = cc

all_four :
    (a b c d : Bool) → (a && b && c && d) ≡ true → (a ≡ true) × (b ≡ true) × (c ≡ true) × (d ≡ true)
all_four a b c d h = ground arith

names_differ : (a b : Str) → not (str_eq a b) ≡ true → a ≢ b
names_differ a b h e = let same_text = (str_eq_iff a b).1 e in cc (rw same_text at h)

other_of : (b slot : RaucSlot) → is_other_bootable b slot ≡ true → OtherOf b slot
unfolding is_other_bootable same
other_of b slot h =
    let (class, root, boots, differs) = all_four _ _ _ _ h in
    (
      (str_eq_iff slot.sclass b.sclass).0 class,
      no_parent slot.parent root,
      has_bootname slot boots,
      names_differ slot.name b.name differs,
    )

booted_named :
    (slots : List RaucSlot) (slot : RaucSlot) (o : Option RaucSlot)
    → get_booted slots ≡ o
    → booted_slot o ≡ ok slot
    → In slot slots × (slot.state ≡ booted)
booted_named slots slot none e h = cc
booted_named slots slot (some b) e h = get_booted_sound slots slot (e ∙ the_same h)
  where
    the_same : booted_slot (some b) ≡ ok slot → some b ≡ some slot
    the_same h = cc

other_named :
    (slots : List RaucSlot) (slot : RaucSlot) (o : Option RaucSlot)
    → get_booted slots ≡ o
    → other_slot slots o ≡ ok slot
    → In slot slots × ((b : RaucSlot) × In b slots × (b.state ≡ booted) × OtherOf b slot)
other_named slots slot none e h = cc
other_named slots slot (some b) e h =
    let (m, passes) =
      find_first_sound (is_other_bootable b) slots
        (found (find_first (is_other_bootable b) slots) h) in
    let (mb, st) = get_booted_sound slots b e in (m, (b, mb, st, other_of b slot passes))
  where
    found : (r : Option RaucSlot) → found_or r ≡ ok slot → r ≡ some slot
    found none h = cc
    found (some x) h = cc

slot_named :
    (slots : List RaucSlot) (slot : RaucSlot) (identifier : Str)
    → bootable (lookup slots identifier) ≡ ok slot
    → In slot slots × (identifier ≡ slot.name) × HasBootname slot
unfolding lookup
slot_named slots slot identifier h = go (lookup slots identifier) refl h
  where
    the_same : {x : RaucSlot} → ok x ≡ ok slot → x ≡ slot
    the_same h = cc

    go :
        (r : Option RaucSlot)
        → lookup slots identifier ≡ r
        → bootable r ≡ ok slot
        → In slot slots × (identifier ≡ slot.name) × HasBootname slot
    go none e h = cc
    go (some x) e h = elim (Bool-cases (is_some x.bootname)) [
      | inl n ↦
          let (m, called) = find_first_sound (λ s. str_eq s.name identifier) slots e in
          subst (λ y. In y slots × (identifier ≡ y.name) × HasBootname y) (the_same (rw n at h))
            (m, sym ((str_eq_iff x.name identifier).0 called), has_bootname x n)
      | inr n ↦ cc (rw n at h)
    ]

-- A slot that get_slot_by_identifier returns is in the table and is what the identifier means:
-- `booted` the booted slot, `other` another root slot of a booted slot's class that has a boot name,
-- and any other text the slot of that name, which has a boot name.
pub get_slot_by_identifier_sound :
    (g : Glib) (slots : List RaucSlot) (identifier : Str) (slot : RaucSlot)
    → get_slot_by_identifier g slots identifier ≡ ok slot
    → In slot slots × Means slots identifier slot
unfolding get_slot_by_identifier
get_slot_by_identifier_sound g slots identifier slot h =
    elim (Bool-cases (str_eq identifier (codes "booted"))) [
      | inl b ↦
          let (m, st) = booted_named slots slot (get_booted slots) refl (rw b at h) in
          (m, inl ((str_eq_iff identifier (codes "booted")).0 b, st))
      | inr b ↦ elim (Bool-cases (str_eq identifier (codes "other"))) [
        | inl o ↦
            let (m, beside) = other_named slots slot (get_booted slots) refl (rw (b, o) at h) in
            (m, inr (inl ((str_eq_iff identifier (codes "other")).0 o, beside)))
        | inr o ↦ elim (Bool-cases (length (g.strsplit identifier dot) == 2)) [
          | inl two ↦
              let (m, called, boots) = slot_named slots slot identifier (rw (b, o, two) at h) in
              (m, inr (inr (called, boots)))
          | inr two ↦ cc (rw (b, o, two) at h)
        ]
      ]
    ]
