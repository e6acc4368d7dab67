-- ===== src/Boot/Owners.antt =====
-- The slot that a boot name belongs to, and names in a boot order.
use mathlib.Core.Path.{subst}
use docker_yocto_kirkstone_n.Prelude.{
  sym, ap, ◌∙◌, find_first, find_first_sound, find_first_complete, Option-cases, ◌≡◌, Bool, true,
  false, List, [], ◌∷◌, Option, none, some, Str, str_eq_iff, opt_eq, arith, In, All-In, keep,
  In-keep, Bool-cases, inl, inr,
}
use docker_yocto_kirkstone_n.Slot.{RaucSlot}
use docker_yocto_kirkstone_n.Boot.Names.{is_listed}
use docker_yocto_kirkstone_n.Boot.Hygiene.{BootName, BootNames, OptBootName}

pub opt_eq_iff : (name : Str) (o : Option Str) → opt_eq (some name) o ≡ true → o ≡ some name
opt_eq_iff name none h = cc
opt_eq_iff name (some s) h = ground (arith, str_eq_iff name s)

pub opt_eq_named : (name : Str) (o : Option Str) → o ≡ some name → opt_eq (some name) o ≡ true
opt_eq_named name none h = cc
opt_eq_named name (some s) h = ground (arith, str_eq_iff name s)

-- `slot` is the only slot of the table with the boot name `name`.
pub record Owns (slots : List RaucSlot) (slot : RaucSlot) (name : Str) : Type 0 where
  pub listed : In slot slots
  pub named : slot.bootname ≡ some name
  pub only : (s : RaucSlot) → In s slots → s.bootname ≡ some name → s ≡ slot

pub is_listed-In : (bs : List Str) (name : Str) → In name bs → is_listed bs name ≡ true
unfolding is_listed
is_listed-In [] name m = absurd m
is_listed-In (b ∷ bs) name m = ground (arith, str_eq_iff b name, is_listed-In bs name)

pub named_BootName : (b : Option Str) {name : Str} → b ≡ some name → OptBootName b → BootName name
named_BootName none e h = cc
named_BootName (some x) e h = subst OptBootName e h

-- The boot name of a slot of the table.
pub Owns-BootName :
    (slots : List RaucSlot) (slot : RaucSlot) {name : Str}
    → BootNames slots
    → Owns slots slot name
    → BootName name
Owns-BootName slots slot names o =
    named_BootName slot.bootname o.named (All-In (λ x. OptBootName x.bootname) slots names o.listed)

In-is_listed : (bs : List Str) (name : Str) → is_listed bs name ≡ true → In name bs
unfolding is_listed
In-is_listed [] name h = cc
In-is_listed (b ∷ bs) name h = ground (arith, str_eq_iff b name, In-is_listed bs name)

-- A name that a filter drops is not listed behind it.
pub is_listed-keep-false :
    (p : Str → Bool) (bs : List Str) (name : Str)
    → p name ≡ false
    → is_listed (keep p bs) name ≡ false
is_listed-keep-false p bs name h = elim (Bool-cases (is_listed (keep p bs) name)) [
  | inr e ↦ e
  | inl e ↦ cc (h, (In-keep p bs {a = name} (In-is_listed (keep p bs) name e)).1)
]

-- The search of the table for a boot name finds its owner.
pub find_owner :
    (slots : List RaucSlot) (slot : RaucSlot) (name : Str)
    → Owns slots slot name
    → find_first (λ s. opt_eq (some name) s.bootname) slots ≡ some slot
find_owner slots slot name o =
    elim (Option-cases (find_first (λ s. opt_eq (some name) s.bootname) slots)) [
      | inl e ↦
          let refused = find_first_complete (λ s. opt_eq (some name) s.bootname) slots e o.listed in
          let passes = opt_eq_named name slot.bootname o.named in
          absurd (true_ne_false (sym passes ∙ refused))
      | inr (x, e) ↦
          let (m, passes) = find_first_sound (λ s. opt_eq (some name) s.bootname) slots e in
          e ∙ ap some (o.only x m (opt_eq_iff name x.bootname passes))
    ]
  where
    true_ne_false : true ≡ false → ⊥
    true_ne_false h = cc
