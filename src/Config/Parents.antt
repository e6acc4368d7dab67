-- ===== src/Config/Parents.antt =====
-- The parents after fix_grandparent_links (kirkstone/local/rauc/src/config_file.c).
use docker_yocto_kirkstone_n.Prelude.{
  ◌≡◌, refl, sym, ap, ◌∙◌, ◌⊎◌, inl, inr, Bool, true, false, List, [], ◌∷◌, Option, none, some, Str,
  str_eq, str_eq_iff, map, In, if◌then◌else◌,
}
use mathlib.Core.Path.{subst}
use docker_yocto_kirkstone_n.Exec.{Result, ok, lift, for_each, ◌>>=◌}
use docker_yocto_kirkstone_n.Exec.Accepts.{Accepts, >>-Accepts, >>=-ok}
use docker_yocto_kirkstone_n.Slot.{RaucSlot, lookup}
use docker_yocto_kirkstone_n.Config.{
  real_parent, set_parent, link_to, linked, fix_parent, fix_slot, fix_grandparent_links,
}
use docker_yocto_kirkstone_n.Config.Links.{
  IsRoot, RootedName, Fixed, the_slot, lookup-name, real_parent-IsRoot, set_parent-Fixed,
}

linked-some :
    (o : Option RaucSlot) (t t' : List RaucSlot) (slot : RaucSlot)
    → lift (linked o) t ≡ (ok slot, t')
    → (o ≡ some slot) × (t ≡ t')
linked-some none t t' slot h = cc
linked-some (some x) t t' slot h = (ap some (inner (ap (λ r. r.0) h)), ap (λ r. r.1) h)
  where
    inner : ok x ≡ ok slot → x ≡ slot
    inner q = cc

link_to-Fixed :
    (m p : Str) (t t' : List RaucSlot) (slot parent root : RaucSlot)
    → lookup t m ≡ some slot
    → slot.parent ≡ some p
    → lookup t p ≡ some parent
    → real_parent t 100 parent ≡ ok root
    → Accepts (link_to m p root) t t'
    → Fixed m t t'
link_to-Fixed m p t t' slot parent root l e lp r h = by_name (str_eq root.name p) refl h
  where
    top : IsRoot t root.name root
    top =
        real_parent-IsRoot t 100 parent root
          (subst (λ n. lookup t n ≡ some parent) (sym (lookup-name t p parent lp)) lp) r

    unchanged : root.name ≡ p → Fixed m t t
    unchanged q = (
      (λ s hs. inr (
        p,
        root,
        ap (λ x. x.parent) (the_slot (sym hs ∙ l)) ∙ e,
        (ap (lookup t) (sym q) ∙ top.0, top.1),
      )),
      λ n h. h,
    )

    by_name :
        (b : Bool)
        → str_eq root.name p ≡ b
        → ◌≡◌ {A = Result (Unit {0}) × List RaucSlot}
            (if b then (ok tt, t) else (ok tt, set_parent m root.name t))
            (ok tt, t')
        → Fixed m t t'
    by_name true q h =
        subst (Fixed m t) (ap (λ r. r.1) h) (unchanged ((str_eq_iff root.name p).0 q))
    by_name false q h =
        subst (Fixed m t) (ap (λ r. r.1) h) (set_parent-Fixed m p t slot root l e top)

fix_parent-Fixed :
    (m : Str) (o : Option Str) (t t' : List RaucSlot) (slot : RaucSlot)
    → lookup t m ≡ some slot
    → slot.parent ≡ o
    → Accepts (fix_parent m o) t t'
    → Fixed m t t'
fix_parent-Fixed m none t t' slot l e h =
    subst (Fixed m t) (ap (λ r. r.1) h)
      ((λ s hs. inl (ap (λ x. x.parent) (the_slot (sym hs ∙ l)) ∙ e)), λ n k. k)
fix_parent-Fixed m (some p) t t' slot l e h =
    let climb = λ (parent : RaucSlot). lift {S = List RaucSlot} (real_parent t 100 parent) in
    let (parent, t1, h1, h2) =
      >>=-ok (lift (linked (lookup t p))) (λ parent. climb parent >>= link_to m p) t t' tt h in
    let (lp, q1) = linked-some (lookup t p) t t1 parent h1 in
    let (root, t2, h3, h4) = >>=-ok (climb parent) (link_to m p) t1 t' tt h2 in
    link_to-Fixed m p t t' slot parent root l e lp (ap (λ r. r.0) h3)
      (subst (λ x. Accepts (link_to m p root) x t') (sym (q1 ∙ ap (λ r. r.1) h3)) h4)

fix_slot-Fixed : (m : Str) (t t' : List RaucSlot) → Accepts (fix_slot m) t t' → Fixed m t t'
fix_slot-Fixed m t t' h =
    let (slot, t1, h1, h2) =
      >>=-ok (lift (linked (lookup t m))) (λ slot. fix_parent m slot.parent) t t' tt h in
    let (l, q) = linked-some (lookup t m) t t1 slot h1 in
    fix_parent-Fixed m slot.parent t t' slot l refl
      (subst (λ x. Accepts (fix_parent m slot.parent) x t') (sym q) h2)

all_fixed :
    (names : List Str) (t t' : List RaucSlot)
    → Accepts (for_each fix_slot names) t t'
    → (n : Str) → In n names ⊎ RootedName t n
    → RootedName t' n
unfolding for_each
all_fixed [] t t' h n (inl m) = absurd m
all_fixed [] t t' h n (inr r) = subst (λ x. RootedName x n) (ap (λ p. p.1) h) r
all_fixed (x ∷ names) t t' h n w =
    let (mid, h1, h2) = >>-Accepts (fix_slot x) (for_each fix_slot names) t t' h in
    let (own, kept) = fix_slot-Fixed x t mid h1 in
    all_fixed names mid t' h2 n (later mid own kept w)
  where
    later :
        (mid : List RaucSlot)
        → RootedName mid x
        → ((k : Str) → RootedName t k → RootedName mid k)
        → In n (x ∷ names) ⊎ RootedName t n
        → In n names ⊎ RootedName mid n
    later mid own kept (inl (inl e)) = inr (subst (RootedName mid) e own)
    later mid own kept (inl (inr m)) = inl m
    later mid own kept (inr r) = inr (kept n r)

-- After fix_grandparent_links has succeeded, each slot that the table had under its name has no
-- parent, or its parent is a slot of the table that has no parent.
pub fix_grandparent_links-Rooted :
    (slots slots' : List RaucSlot)
    → fix_grandparent_links slots ≡ (ok tt, slots')
    → (n : Str) → In n (map (λ s. s.name) slots)
    → RootedName slots' n
unfolding fix_grandparent_links
fix_grandparent_links-Rooted slots slots' h n m =
    all_fixed (map (λ s. s.name) slots) slots slots' h n (inl m)
