-- ===== src/Install/Roots.antt =====
-- Where the slots of a target group come from.
use docker_yocto_kirkstone_n.Prelude.{
  ◌≡◌, refl, sym, ap, Bool, true, false, ◌&&◌, List, [], ◌∷◌, Option, none, some, Str, str_eq,
  str_eq_iff, find_first, find_first_sound, In, Bool-cases, ◌⊎◌, inl, inr, if◌then◌else◌, arith,
}
use mathlib.Core.Path.{subst}
use docker_yocto_kirkstone_n.Slot.{
  RaucSlot, SlotState, unknown, active, inactive, booted, same, get_parent_root, get_root_classes,
  list_contains, is_inactive,
}
use docker_yocto_kirkstone_n.Install.Target.{
  TargetGroup, insert, select_inactive_slot_class_member, append_selected, selected_root_slots,
  is_selected, is_candidate, add_targets, determine_target_install_group,
}

inactive_of : (st : SlotState) → is_inactive st ≡ true → st ≡ inactive
inactive_of unknown h = cc
inactive_of active h = cc
inactive_of inactive h = refl
inactive_of booted h = cc

In-insert :
    (key : Str) (slot : RaucSlot) (group : TargetGroup) (e : Str × RaucSlot)
    → In e (insert key slot group)
    → (e.1 ≡ slot) ⊎ In e group
unfolding insert
In-insert key slot [] e (inl q) = inl (ap (λ x. x.1) (sym q))
In-insert key slot [] e (inr m) = absurd m
In-insert key slot ((k, s) ∷ group) e m = ground (arith, In-insert key slot group e)

In-add_target :
    (chosen : Bool) (slot : RaucSlot) (group : TargetGroup) (e : Str × RaucSlot)
    → In e (if chosen then insert slot.sclass slot group else group)
    → In e group ⊎ ((slot ≡ e.1) × (chosen ≡ true))
In-add_target false slot group e m = inl m
In-add_target true slot group e m = elim (In-insert slot.sclass slot group e m) [
  | inl q ↦ inr (sym q, refl)
  | inr old ↦ inl old
]

-- Where the target slots come from.
In-add_targets :
    (slots selected : List RaucSlot) (group : TargetGroup) (rest : List RaucSlot)
    (e : Str × RaucSlot)
    → In e (add_targets slots selected group rest)
    → In e group ⊎ (In e.1 rest × (is_selected selected (get_parent_root slots e.1) ≡ true))
unfolding add_targets
In-add_targets slots selected group [] e m = inl m
In-add_targets slots selected group (s ∷ rest) e m =
    elim (In-add_targets slots selected
      (if is_selected selected (get_parent_root slots s) then insert s.sclass s group else group)
      rest e m) [
        | inr (later, c) ↦ inr (inr later, c)
        | inl q ↦
            elim (In-add_target (is_selected selected (get_parent_root slots s)) s group e q) [
              | inl old ↦ inl old
              | inr (same_slot, c) ↦ inr (
                inl same_slot,
                subst (λ x. is_selected selected (get_parent_root slots x) ≡ true) same_slot c,
              )
            ]
      ]

In-append_selected :
    (o : Option RaucSlot) (selected : List RaucSlot) (s : RaucSlot)
    → In s (append_selected o selected)
    → (o ≡ some s) ⊎ In s selected
In-append_selected none selected s m = inr m
In-append_selected (some x) selected s (inl e) = inl (ap some e)
In-append_selected (some x) selected s (inr m) = inr m

candidate_inactive : (c : Str) (s : RaucSlot) → is_candidate c s ≡ true → s.state ≡ inactive
candidate_inactive c s h = inactive_of s.state (and_left _ _ h)
  where
    and_left : (a b : Bool) → (a && b) ≡ true → a ≡ true
    and_left true b h = refl
    and_left false b h = h

In-selected :
    (slots : List RaucSlot) (cs : List Str) (s : RaucSlot)
    → In s (selected_root_slots slots cs)
    → In s slots × (s.state ≡ inactive)
unfolding selected_root_slots select_inactive_slot_class_member
In-selected slots [] s m = absurd m
In-selected slots (c ∷ cs) s m =
    elim (In-append_selected (select_inactive_slot_class_member slots c)
      (selected_root_slots slots cs) s m) [
        | inr later ↦ In-selected slots cs s later
        | inl e ↦
            let (found, passes) = find_first_sound (is_candidate c) slots e in
            (found, candidate_inactive c s passes)
      ]

-- A slot of that name is on the list.
list_contains_named :
    (slotlist : List RaucSlot) (test : RaucSlot)
    → list_contains slotlist test ≡ true
    → (s : RaucSlot) × In s slotlist × (s.name ≡ test.name)
unfolding list_contains find_first same
list_contains_named [] test h = cc
list_contains_named (s ∷ slotlist) test h = elim (Bool-cases (str_eq s.name test.name)) [
  | inl e ↦ (s, inl refl, (str_eq_iff s.name test.name).0 e)
  | inr e ↦ let (x, m, q) = list_contains_named slotlist test (rw e at h) in (x, inr m, q)
]

selected_root :
    (selected : List RaucSlot) (o : Option RaucSlot)
    → is_selected selected o ≡ true
    → (root s : RaucSlot) × (o ≡ some root) × In s selected × (s.name ≡ root.name)
selected_root selected none h = cc
selected_root selected (some root) h =
    let (s, m, e) = list_contains_named selected root h in (root, s, refl, m, e)

-- A target belongs to a root slot with the name of an inactive slot.
pub target_root :
    (slots : List RaucSlot) (e : Str × RaucSlot)
    → In e (determine_target_install_group slots)
    → In e.1 slots
      × ((root s : RaucSlot) × (get_parent_root slots e.1 ≡ some root)
          × In s slots
          × (s.state ≡ inactive)
          × (s.name ≡ root.name))
unfolding determine_target_install_group
target_root slots e m = elim (In-add_targets slots _ [] slots e m) [
  | inl none_yet ↦ absurd none_yet
  | inr (listed, c) ↦
      let (root, s, up, chosen, named) = selected_root _ _ c in
      let (in_table, idle) = In-selected slots (get_root_classes slots) s chosen in
      (listed, (root, s, up, in_table, idle, named))
]
