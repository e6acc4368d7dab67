-- ===== src/Config/Links.antt =====
-- The links between slots that fix_grandparent_links (kirkstone/local/rauc/src/config_file.c) follows
-- and sets.
use docker_yocto_kirkstone_n.Prelude.{
  ℕ, zero, suc, ◌≡◌, ◌≢◌, refl, sym, ap, ◌∙◌, ◌⊎◌, inl, inr, true, false, List, [], ◌∷◌, Option,
  none, some, Str, str_eq, str_eq_iff, find_first, find_first_sound, if◌then◌else◌, Bool-cases,
}
use mathlib.Core.Path.{subst}
use docker_yocto_kirkstone_n.Exec.{Result, ok, err, config_parent_loop}
use docker_yocto_kirkstone_n.Slot.{RaucSlot, lookup}
use docker_yocto_kirkstone_n.Config.{real_parent, set_parent, linked, followed, to_parent}

abbrev pub IsRoot : List RaucSlot → Str → RaucSlot → Type 0
IsRoot slots p root = (lookup slots p ≡ some root) × (root.parent ≡ none)

-- The slot has no parent, or one that has no parent.
abbrev pub Rooted : List RaucSlot → RaucSlot → Type 0
Rooted slots s =
    (s.parent ≡ none) ⊎ ((p : Str) × (root : RaucSlot) × (s.parent ≡ some p) × IsRoot slots p root)

abbrev pub RootedName : List RaucSlot → Str → Type 0
RootedName slots n = (s : RaucSlot) → lookup slots n ≡ some s → Rooted slots s

pub the_slot : {a b : RaucSlot} → some a ≡ some b → a ≡ b
the_slot h = cc

pub lookup-name :
    (slots : List RaucSlot) (n : Str) (s : RaucSlot) → lookup slots n ≡ some s → s.name ≡ n
unfolding lookup
lookup-name slots n s h =
    (str_eq_iff s.name n).0 (find_first_sound (λ x. str_eq x.name n) slots h).1

lookup-set_parent_other :
    (m p n : Str) (slots : List RaucSlot) → n ≢ m → lookup (set_parent m p slots) n ≡ lookup slots n
unfolding lookup find_first set_parent
lookup-set_parent_other m p n [] h = refl
lookup-set_parent_other m p n (s ∷ slots) h = elim (Bool-cases (str_eq s.name m)) [
  | inl e ↦ rw (e, skipped e) (lookup-set_parent_other m p n slots h)
  | inr e ↦ rw e (
      ap (λ (o : Option RaucSlot). if str_eq s.name n then some s else o)
        (lookup-set_parent_other m p n slots h))
]
  where
    skipped : str_eq s.name m ≡ true → str_eq s.name n ≡ false
    skipped e = elim (Bool-cases (str_eq s.name n)) [
      | inl q ↦ absurd (h (sym ((str_eq_iff s.name n).0 q) ∙ (str_eq_iff s.name m).0 e))
      | inr q ↦ q
    ]

lookup-set_parent :
    (m p : Str) (slots : List RaucSlot) (s : RaucSlot)
    → lookup slots m ≡ some s
    → lookup (set_parent m p slots) m ≡ some (record s { parent = some p })
unfolding lookup find_first set_parent
lookup-set_parent m p [] s h = cc
lookup-set_parent m p (x ∷ slots) s h = elim (Bool-cases (str_eq x.name m)) [
  | inl e ↦ rw (e, e) (updated (the_slot (rw e at h)))
  | inr e ↦ rw (e, e) (lookup-set_parent m p slots s (rw e at h))
]
  where
    updated :
        x ≡ s
        → ◌≡◌ {A = Option RaucSlot}
            (some (record x { parent = some p }))
            (some (record s { parent = some p }))
    updated q = ap (λ (y : RaucSlot). some (record y { parent = some p })) q

-- What the loop does at a slot with a parent.
to_parent-IsRoot :
    (slots : List RaucSlot) (o : Option Str) (s root : RaucSlot)
    (further : RaucSlot → Result RaucSlot)
    → s.parent ≡ o
    → lookup slots s.name ≡ some s
    → ((up : RaucSlot)
        → lookup slots up.name ≡ some up
        → further up ≡ ok root
        → IsRoot slots root.name root)
    → to_parent slots o s further ≡ ok root
    → IsRoot slots root.name root
to_parent-IsRoot slots none s root further e l next h =
    subst (λ x. IsRoot slots x.name x) (the_root h) (l, e)
  where
    the_root : ok s ≡ ok root → s ≡ root
    the_root q = cc
to_parent-IsRoot slots (some p) s root further e l next h = by_up (lookup slots p) refl h
  where
    by_up :
        (o : Option RaucSlot)
        → lookup slots p ≡ o
        → followed (linked o) further ≡ ok root
        → IsRoot slots root.name root
    by_up none q h = cc
    by_up (some up) q h =
        next up (subst (λ n. lookup slots n ≡ some up) (sym (lookup-name slots p up q)) q) h

pub real_parent-IsRoot :
    (slots : List RaucSlot) (steps : ℕ) (s root : RaucSlot)
    → lookup slots s.name ≡ some s
    → real_parent slots steps s ≡ ok root
    → IsRoot slots root.name root
unfolding real_parent
real_parent-IsRoot slots zero s root l h =
    to_parent-IsRoot slots s.parent s root (λ up. err config_parent_loop) refl l (λ up k q. cc) h
real_parent-IsRoot slots (suc left) s root l h =
    to_parent-IsRoot slots s.parent s root (real_parent slots left) refl l
      (λ up. real_parent-IsRoot slots left up root) h

-- A slot whose parent is set to a root: it is rooted, and so are the slots that were.
abbrev pub Fixed : Str → List RaucSlot → List RaucSlot → Type 0
Fixed m slots slots' = RootedName slots' m × ((n : Str) → RootedName slots n → RootedName slots' n)

pub set_parent-Fixed :
    (m p : Str) (slots : List RaucSlot) (slot root : RaucSlot)
    → lookup slots m ≡ some slot
    → slot.parent ≡ some p
    → IsRoot slots root.name root
    → Fixed m slots (set_parent m root.name slots)
set_parent-Fixed m p slots slot root l e (lr, er) = (own, kept)
  where
    not_root : (n : Str) (r : RaucSlot) → lookup slots n ≡ some r → r.parent ≡ none → n ≢ m
    not_root n r lr er q =
        let same = the_slot (sym lr ∙ ap (lookup slots) q ∙ l) in
        let bad = sym er ∙ ap (λ x. x.parent) same ∙ e in cc

    own : RootedName (set_parent m root.name slots) m
    own s h =
        let same = the_slot (sym (lookup-set_parent m root.name slots slot l) ∙ h) in
        inr (
          root.name,
          root,
          ap (λ x. x.parent) (sym same),
          (
            lookup-set_parent_other m root.name root.name slots (not_root root.name root lr er)
                ∙ lr,
            er,
          ),
        )

    kept : (n : Str) → RootedName slots n → RootedName (set_parent m root.name slots) n
    kept n rooted s h = elim (Bool-cases (str_eq n m)) [
      | inl q ↦ own s (ap (lookup (set_parent m root.name slots)) (sym ((str_eq_iff n m).0 q)) ∙ h)
      | inr q ↦ moved (
          rooted s (
            sym (
              lookup-set_parent_other m root.name n slots
                (λ t. let bad = (str_eq_iff n m).1 t in cc))
            ∙ h))
    ]
      where
        moved : Rooted slots s → Rooted (set_parent m root.name slots) s
        moved (inl e') = inl e'
        moved (inr (p', r, ep, (lp, rp))) = inr (
          p',
          r,
          ep,
          (lookup-set_parent_other m root.name p' slots (not_root p' r lp rp) ∙ lp, rp),
        )
