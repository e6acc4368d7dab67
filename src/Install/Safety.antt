-- ===== src/Install/Safety.antt =====
-- No slot of a running system is a target of an installation.
use docker_yocto_kirkstone_n.Prelude.{
  ℕ, suc, ◌≡◌, refl, sym, ap, ◌∙◌, Bool, true, List, [], ◌∷◌, map, Option, none, some, Str, str_eq,
  str_eq_iff, find_first, find_first_sound, length, In, Bool-cases, ◌⊎◌, inl, inr,
}
use mathlib.Core.Path.{subst}
use docker_yocto_kirkstone_n.Exec.{ok}
use docker_yocto_kirkstone_n.Slot.{RaucSlot, inactive, booted, same, lookup, climb, get_parent_root}
use docker_yocto_kirkstone_n.Install.States.{
  SlotTable, set_state, state_beside, is_child_of, find_bootslot, with_states,
  determine_slot_states, is_extboot,
}
use docker_yocto_kirkstone_n.Install.Roots.{target_root}
use docker_yocto_kirkstone_n.Install.Target.{determine_target_install_group}

-- The table has each of its slots under the slot's name.
abbrev pub WellKeyed : List RaucSlot → Type 0
WellKeyed slots = (s : RaucSlot) → In s slots → lookup slots s.name ≡ some s

-- The table after determine_slot_states, beside a booted slot.
abbrev beside : RaucSlot → RaucSlot → RaucSlot
beside b s = set_state s (state_beside b s)

same_named : (s b : RaucSlot) → s.name ≡ b.name → same s b ≡ true
unfolding same
same_named s b e = (str_eq_iff s.name b.name).1 e

named_same : (s b : RaucSlot) → same s b ≡ true → s.name ≡ b.name
unfolding same
named_same s b e = (str_eq_iff s.name b.name).0 e

booted_named :
    (b : RaucSlot) (slots : List RaucSlot) (s : RaucSlot)
    → In s (map (beside b) slots)
    → s.name ≡ b.name
    → s.state ≡ booted
booted_named b [] s m e = absurd m
booted_named b (x ∷ slots) s (inr m) e = booted_named b slots s m e
booted_named b (x ∷ slots) s (inl q) e =
    sym (ap (λ y. y.state) q) ∙ rw (same_named x b (ap (λ y. y.name) q ∙ e))

lookup-beside :
    (b : RaucSlot) (name : Str) (slots : List RaucSlot) (s : RaucSlot)
    → lookup slots name ≡ some s
    → lookup (map (beside b) slots) name ≡ some (beside b s)
unfolding lookup find_first
lookup-beside b name [] s h = cc
lookup-beside b name (x ∷ slots) s h = elim (Bool-cases (str_eq x.name name)) [
  | inl e ↦ rw e (ap (λ y. some (beside b y)) (the_first (rw e at h)))
  | inr e ↦ rw e (lookup-beside b name slots s (rw e at h))
]
  where
    the_first : some x ≡ some s → x ≡ s
    the_first q = cc

In-map_beside :
    (f : RaucSlot → RaucSlot) (slots : List RaucSlot) (s : RaucSlot)
    → In s (map f slots)
    → (s0 : RaucSlot) × In s0 slots × (f s0 ≡ s)
In-map_beside f [] s m = absurd m
In-map_beside f (x ∷ slots) s (inl q) = (x, inl refl, q)
In-map_beside f (x ∷ slots) s (inr m) = let (s0, n, q) = In-map_beside f slots s m in (s0, inr n, q)

all_inactive :
    (slots : List RaucSlot) (s : RaucSlot)
    → In s (map (λ x. set_state x inactive) slots)
    → s.state ≡ inactive
all_inactive slots s m =
    let (s0, n, q) = In-map_beside (λ x. set_state x inactive) slots s m in
    ap (λ x. x.state) (sym q)

child_named :
    (parent : Option Str) (b : RaucSlot) → is_child_of parent b ≡ true → parent ≡ some b.name
child_named none b h = cc
child_named (some p) b h = ap some ((str_eq_iff p b.name).0 h)

root_self :
    (slots : List RaucSlot) (s : RaucSlot) → s.parent ≡ none → get_parent_root slots s ≡ some s
unfolding get_parent_root climb
root_self slots s h = rw h

some_slots : (slots : List RaucSlot) (s : RaucSlot) → In s slots → (n : ℕ) × (length slots ≡ suc n)
some_slots [] s m = absurd m
some_slots (x ∷ slots) s m = (length slots, refl)

climb_step :
    (slots : List RaucSlot) (n : ℕ) (s up : RaucSlot) (name : Str)
    → s.parent ≡ some name
    → lookup slots name ≡ some up
    → climb slots (suc n) s ≡ climb slots n up
unfolding climb
climb_step slots n s up name h l = rw (h, climb, l)

climb_top :
    (slots : List RaucSlot) (n : ℕ) (s : RaucSlot)
    → s.parent ≡ none
    → climb slots (suc n) s ≡ some s
unfolding climb
climb_top slots n s h = rw h

root_child :
    (slots : List RaucSlot) (s up : RaucSlot) (name : Str)
    → In s slots
    → s.parent ≡ some name
    → lookup slots name ≡ some up
    → up.parent ≡ none
    → get_parent_root slots s ≡ some up
unfolding get_parent_root
root_child slots s up name m h l top =
    let (n, long) = some_slots slots s m in
    climb_step slots (length slots) s up name h l
    ∙ ap (λ k. climb slots k up) long
    ∙ climb_top slots n up top

module _ (slots : List RaucSlot) (b : RaucSlot) (keyed : WellKeyed slots) (listed : In b slots)
    (top : b.parent ≡ none) where
  abbrev now : List RaucSlot
  now = map (beside b) slots

  is_b : (s : RaucSlot) → In s slots → s.name ≡ b.name → s ≡ b
  is_b s m e = the_same (sym (keyed s m) ∙ ap (λ n. lookup slots n) e ∙ keyed b listed)
    where
      the_same : some s ≡ some b → s ≡ b
      the_same q = cc

  -- The slots that are in use belong to the booted slot.
  root_of_used :
      (s : RaucSlot)
      → In s slots
      → In (beside b s) now
      → ((beside b s).state ≡ inactive)
        ⊎ ((root : RaucSlot) × (get_parent_root now (beside b s) ≡ some root)
            × (root.name ≡ b.name))
  root_of_used s m m' = elim (Bool-cases (same s b)) [
    | inl e ↦ inr (
      beside b s,
      root_self now (beside b s) (ap (λ x. x.parent) (is_b s m (named_same s b e)) ∙ top),
      named_same s b e,
    )
    | inr e ↦ elim (Bool-cases (is_child_of s.parent b)) [
      | inl child ↦ inr (
        beside b b,
        root_child now (beside b s) (beside b b) b.name m' (child_named s.parent b child)
            (lookup-beside b b.name slots b (keyed b listed)) top,
        refl,
      )
      | inr other ↦ inl (rw (e, other))
    ]
  ]

  idle_target :
      (e : Str × RaucSlot) → In e (determine_target_install_group now) → e.1.state ≡ inactive
  idle_target e m =
      let (m', (root, s, up, chosen, idle, named)) = target_root now e m in
      let (s0, m0, q) = In-map_beside (beside b) slots e.1 m' in
      let kept : In (beside b s0) now = subst (λ x. In x now) (sym q) m' in
      let up' : get_parent_root now (beside b s0) ≡ some root =
        ap (λ x. get_parent_root now x) q ∙ up in
      ap (λ x. x.state) (sym q) ∙ elim (root_of_used s0 m0 kept) [
        | inl unused ↦ unused
        | inr (top_slot, above, name) ↦ absurd (
            not_both s idle (
              booted_named b slots s chosen
                (named ∙ ap (λ x. x.name) (one_root (sym up' ∙ above)) ∙ name)))
      ]
    where
      one_root : {x y : RaucSlot} → some x ≡ some y → x ≡ y
      one_root h = cc

      not_both : (s : RaucSlot) → s.state ≡ inactive → s.state ≡ booted → ⊥
      not_both s h k = cc

some_inj : {slots slots' : List RaucSlot} → some slots ≡ some slots' → slots ≡ slots'
some_inj h = cc

module _ (realpath : Str → Option Str) (bootslot : Str) (slots : List RaucSlot) where
  -- What a successful determine_slot_states makes of the table.
  made_of :
      (determined : Bool) (t' : SlotTable) (o : Option (List RaucSlot))
      → with_states realpath (find_bootslot realpath bootslot slots) bootslot slots ≡ o
      → determine_slot_states realpath
          (some bootslot)
          (record { slots = some slots; slot_states_determined = determined })
        ≡ (ok tt, t')
      → o ≡ t'.slots
  unfolding determine_slot_states
  made_of determined t' none e h = cc (rw (determine_slot_states, e) at h)
  made_of determined t' (some x) e h = ap (λ r. r.1.slots) (rw (determine_slot_states, e) at h)

  idle :
      (o : Option RaucSlot) (slots' : List RaucSlot) (e : Str × RaucSlot)
      → WellKeyed slots
      → ((b : RaucSlot) → find_bootslot realpath bootslot slots ≡ some b → b.parent ≡ none)
      → find_bootslot realpath bootslot slots ≡ o
      → with_states realpath o bootslot slots ≡ some slots'
      → In e (determine_target_install_group slots')
      → e.1.state ≡ inactive
  unfolding with_states find_bootslot
  idle none slots' e keyed top f w m = elim (Bool-cases (is_extboot bootslot)) [
    | inl x ↦
        all_inactive slots e.1
          (subst (λ l. In e.1 l) (sym (some_inj (rw x at w))) (target_root slots' e m).0)
    | inr x ↦ cc (rw x at w)
  ]
  idle (some b) slots' e keyed top f w m =
      idle_target slots b keyed (find_first_sound _ slots f).0 (top b f) e
        (subst (λ l. In e (determine_target_install_group l)) (sym (some_inj w)) m)

  -- After determine_slot_states has found the slot states, no slot of the target group of an
  -- installation is booted or active: all are inactive. A booted slot has to have no parent, and
  -- the table has to have each slot under its name.
  pub targets-inactive :
      (determined : Bool) (t' : SlotTable) (slots' : List RaucSlot) (e : Str × RaucSlot)
      → WellKeyed slots
      → ((b : RaucSlot) → find_bootslot realpath bootslot slots ≡ some b → b.parent ≡ none)
      → determine_slot_states realpath
          (some bootslot)
          (record { slots = some slots; slot_states_determined = determined })
        ≡ (ok tt, t')
      → t'.slots ≡ some slots'
      → In e (determine_target_install_group slots')
      → e.1.state ≡ inactive
  targets-inactive determined t' slots' e keyed top done after m =
      idle (find_bootslot realpath bootslot slots) slots' e keyed top refl
        (made_of determined t' _ refl done ∙ after) m
