-- ===== src/Slot/Roots.antt =====
-- r_slot_get_root_classes against its description: the classes of the slots without a parent.
use docker_yocto_kirkstone_n.Prelude.{
  ◌≡◌, ◌≢◌, ◌↔◌, refl, sym, ◌∙◌, true, false, List, [], ◌∷◌, ◌++◌, Option, none, some, Str, str_eq,
  str_eq_iff, In, Bool-cases, Option-cases, inl, inr, ◌⊎◌,
}
use mathlib.Core.Path.{subst}
use docker_yocto_kirkstone_n.Slot.Types.{RaucSlot}
use docker_yocto_kirkstone_n.Slot.Classes.{
  split_last, fill_gap, remove_fast, collect_class, collect_classes, get_root_classes,
}

In-append : (xs ys : List Str) (a : Str) → In a (xs ++ ys) → In a xs ⊎ In a ys
In-append [] ys a m = inr m
In-append (x ∷ xs) ys a (inl e) = inl (inl e)
In-append (x ∷ xs) ys a (inr m) = elim (In-append xs ys a m) [ inl l ↦ inl (inr l) | inr r ↦ inr r ]

In-append_left : (xs ys : List Str) (a : Str) → In a xs → In a (xs ++ ys)
In-append_left [] ys a m = absurd m
In-append_left (x ∷ xs) ys a (inl e) = inl e
In-append_left (x ∷ xs) ys a (inr m) = inr (In-append_left xs ys a m)

In-append_right : (xs ys : List Str) (a : Str) → In a ys → In a (xs ++ ys)
In-append_right [] ys a m = m
In-append_right (x ∷ xs) ys a m = inr (In-append_right xs ys a m)

-- The last element in front has the same elements.
abbrev Last : List Str → Option (List Str × Str) → Type 0
Last xs none = (a : Str) → In a xs → ⊥
Last xs (some (front, last)) =
    ((a : Str) → In a xs → In a (last ∷ front)) × ((a : Str) → In a (last ∷ front) → In a xs)

split_last-Last : (xs : List Str) → Last xs (split_last xs)
unfolding split_last
split_last-Last [] = λ a m. m
split_last-Last (x ∷ xs) = go (split_last xs) (split_last-Last xs)
  where
    go :
        (r : Option (List Str × Str))
        → Last xs r
        → Last
            (x ∷ xs)
            (elim r [ none ↦ some ([], x) | some (front, last) ↦ some (x ∷ front, last) ])
    go none h = (to, from)
      where
        to : (a : Str) → In a (x ∷ xs) → In a (x ∷ [])
        to a (inl e) = inl e
        to a (inr m) = absurd (h a m)

        from : (a : Str) → In a (x ∷ []) → In a (x ∷ xs)
        from a (inl e) = inl e
        from a (inr m) = absurd m
    go (some (front, last)) (to, from) = (there, back)
      where
        there : (a : Str) → In a (x ∷ xs) → In a (last ∷ x ∷ front)
        there a (inl e) = inr (inl e)
        there a (inr m) = elim (to a m) [ inl e ↦ inl e | inr k ↦ inr (inr k) ]

        back : (a : Str) → In a (last ∷ x ∷ front) → In a (x ∷ xs)
        back a (inl e) = inr (from a (inl e))
        back a (inr (inl e)) = inl e
        back a (inr (inr m)) = inr (from a (inr m))

In-fill_gap :
    (xs : List Str) (a : Str) → (In a (fill_gap xs) → In a xs) × (In a xs → In a (fill_gap xs))
In-fill_gap xs a = go (split_last xs) (split_last-Last xs)
  where
    go :
        (r : Option (List Str × Str))
        → Last xs r
        → (In a (elim r [ none ↦ [] | some (front, last) ↦ last ∷ front ]) → In a xs)
          × (In a xs → In a (elim r [ none ↦ [] | some (front, last) ↦ last ∷ front ]))
    go none h = (λ m. absurd m, λ m. h a m)
    go (some (front, last)) (to, from) = (from a, to a)

-- Removing a class keeps all others.
In-remove_fast :
    (xs : List Str) (key a : Str)
    → (In a (remove_fast xs key) → In a xs) × (key ≢ a → In a xs → In a (remove_fast xs key))
unfolding remove_fast
In-remove_fast [] key a = (λ m. m, λ d m. m)
In-remove_fast (x ∷ xs) key a = elim (Bool-cases (str_eq x key)) [
  | inl e ↦ rw e (λ m. inr ((In-fill_gap xs a).0 m), λ d m. (In-fill_gap xs a).1 (others e d m))
  | inr e ↦ rw e (
    λ m. elim m [ inl q ↦ inl q | inr k ↦ inr ((In-remove_fast xs key a).0 k) ],
    λ d m. elim m [ inl q ↦ inl q | inr k ↦ inr ((In-remove_fast xs key a).1 d k) ],
  )
]
  where
    others : str_eq x key ≡ true → key ≢ a → In a (x ∷ xs) → In a xs
    others e d (inl q) = absurd (d (sym ((str_eq_iff x key).0 e) ∙ q))
    others e d (inr m) = m

-- The slot is a root slot of the class.
abbrev pub IsRootOf : Str → RaucSlot → Type 0
IsRootOf class s = (s.parent ≡ none) × (s.sclass ≡ class)

parent_differs : {o : Option Str} {p : Str} → o ≡ none → o ≡ some p → ⊥
parent_differs e f = differ (sym e ∙ f)
  where
    differ : {p : Str} → none ≡ some p → ⊥
    differ h = cc

collect_root :
    (acc : List Str) (s : RaucSlot)
    → s.parent ≡ none
    → collect_class acc s ≡ remove_fast acc s.sclass ++ (s.sclass ∷ [])
unfolding collect_class
collect_root acc s e = rw e refl

collect_child :
    (acc : List Str) (s : RaucSlot) (p : Str) → s.parent ≡ some p → collect_class acc s ≡ acc
unfolding collect_class
collect_child acc s p e = rw e refl

In-collect_class :
    (acc : List Str) (s : RaucSlot) (a : Str)
    → (In a (collect_class acc s) → In a acc ⊎ IsRootOf a s)
      × (In a acc ⊎ IsRootOf a s → In a (collect_class acc s))
unfolding collect_class
In-collect_class acc s a = elim (Option-cases s.parent) [
  | inr (p, e) ↦ (
    λ m. inl (subst (In a) (collect_child acc s p e) m),
    λ m. subst (In a) (sym (collect_child acc s p e)) (kept p e m),
  )
  | inl e ↦ (
    λ m.
        elim (In-append (remove_fast acc s.sclass) (s.sclass ∷ []) a
          (subst (In a) (collect_root acc s e) m)) [
            | inl k ↦ inl ((In-remove_fast acc s.sclass a).0 k)
            | inr k ↦ inr (e, last k)
          ],
    λ m. subst (In a) (sym (collect_root acc s e)) (placed m),
  )
]
  where
    last : In a (s.sclass ∷ []) → s.sclass ≡ a
    last (inl q) = q
    last (inr m) = absurd m

    kept : (p : Str) → s.parent ≡ some p → In a acc ⊎ IsRootOf a s → In a acc
    kept p e (inl m) = m
    kept p e (inr (root, q)) = absurd (parent_differs root e)

    placed : In a acc ⊎ IsRootOf a s → In a (remove_fast acc s.sclass ++ (s.sclass ∷ []))
    placed (inr (root, q)) = In-append_right (remove_fast acc s.sclass) (s.sclass ∷ []) a (inl q)
    placed (inl m) = elim (Bool-cases (str_eq s.sclass a)) [
      | inl e ↦
          In-append_right (remove_fast acc s.sclass) (s.sclass ∷ []) a
            (inl ((str_eq_iff s.sclass a).0 e))
      | inr e ↦
          In-append_left (remove_fast acc s.sclass) (s.sclass ∷ []) a
            ((In-remove_fast acc s.sclass a).1 (unequal e) m)
    ]
      where
        unequal : str_eq s.sclass a ≡ false → s.sclass ≢ a
        unequal e q = let h = (str_eq_iff s.sclass a).1 q in cc

abbrev Collected : List Str → List RaucSlot → Str → Type 0
Collected acc slots a = In a acc ⊎ ((s : RaucSlot) × In s slots × IsRootOf a s)

-- The classes that are collected are those from before and those of the root slots.
In-collect_classes :
    (acc : List Str) (slots : List RaucSlot) (a : Str)
    → (In a (collect_classes acc slots) → Collected acc slots a)
      × (Collected acc slots a → In a (collect_classes acc slots))
unfolding collect_classes
In-collect_classes acc [] a = (λ m. inl m, λ m. elim m [ inl k ↦ k | inr (s, n, r) ↦ absurd n ])
In-collect_classes acc (x ∷ slots) a =
    let (to, from) = In-collect_classes (collect_class acc x) slots a in
    (λ m. earlier (to m), λ m. from (later m))
  where
    earlier : Collected (collect_class acc x) slots a → Collected acc (x ∷ slots) a
    earlier (inr (s, n, r)) = inr (s, inr n, r)
    earlier (inl k) = elim ((In-collect_class acc x a).0 k) [
      | inl old ↦ inl old
      | inr r ↦ inr (x, inl refl, r)
    ]

    later : Collected acc (x ∷ slots) a → Collected (collect_class acc x) slots a
    later (inl m) = inl ((In-collect_class acc x a).1 (inl m))
    later (inr (s, inl e, r)) =
        inl ((In-collect_class acc x a).1 (inr (subst (IsRootOf a) (sym e) r)))
    later (inr (s, inr n, r)) = inr (s, n, r)

-- r_slot_get_root_classes returns exactly the classes of the slots that have no parent.
pub get_root_classes_iff :
    (slots : List RaucSlot) (class : Str)
    → (In class (get_root_classes slots)) ↔ ((s : RaucSlot) × In s slots × IsRootOf class s)
unfolding get_root_classes
get_root_classes_iff slots class = (
  λ m. only ((In-collect_classes [] slots class).0 m),
  λ r. (In-collect_classes [] slots class).1 (inr r),
)
  where
    only : Collected [] slots class → (s : RaucSlot) × In s slots × IsRootOf class s
    only (inl m) = absurd m
    only (inr r) = r
