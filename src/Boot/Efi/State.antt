-- ===== src/Boot/Efi/State.antt =====
-- Marking a slot with EFI, and what efi_get_state then returns.
use docker_yocto_kirkstone_n.Prelude.{
  ◌≡◌, ◌≢◌, refl, sym, ap, ◌∙◌, Bool, true, false, List, [], ◌∷◌, Option, none, some, Str,
  find_first, find_first_sound, is_some, In, Bool-cases, inl, inr,
}
use mathlib.Core.Path.{subst}
use docker_yocto_kirkstone_n.Exec.{ok, err, bootchooser_failed}
use docker_yocto_kirkstone_n.Process.{Processes}
use docker_yocto_kirkstone_n.Glib.{Glib, GlibLaws}
use docker_yocto_kirkstone_n.Slot.{RaucSlot}
use docker_yocto_kirkstone_n.Context.{RaucConfig}
use docker_yocto_kirkstone_n.Boot.Efi.Entries.{
  EfiBootentry, EfiBootorder, EfiRegex, is_named, get_efi_entry_by_bootnum, remove_first,
}
use docker_yocto_kirkstone_n.Boot.Owners.{opt_eq_iff, opt_eq_named}
use docker_yocto_kirkstone_n.Boot.Efi.{new_entries, efi_bootorder_get, efi_set_state, efi_get_state}
use docker_yocto_kirkstone_n.Boot.Efi.Tool.{EfiBootmgr}
use docker_yocto_kirkstone_n.Boot.Efi.Primary.{
  reordered, ordered, bootorder_get-reordered, modify_lem, view_of-get, view_next,
  new_entries-Known,
}

-- The second list is the first without the first of its entries with the boot name.
pub data FirstRemoved (bootname : Option Str) : List EfiBootentry → List EfiBootentry → Type 0 where
  no_entries : FirstRemoved bootname [] []
  removed :
      {e : EfiBootentry} {entries : List EfiBootentry}
      → some e.name ≡ bootname
      → FirstRemoved bootname (e ∷ entries) entries
  kept :
      {e : EfiBootentry} {entries rest : List EfiBootentry}
      → some e.name ≢ bootname
      → FirstRemoved bootname entries rest
      → FirstRemoved bootname (e ∷ entries) (e ∷ rest)

remove_first-FirstRemoved :
    (bootname : Option Str) (entries : List EfiBootentry)
    → FirstRemoved bootname entries (remove_first (is_named bootname) entries)
unfolding remove_first
remove_first-FirstRemoved bootname [] = no_entries
remove_first-FirstRemoved bootname (e ∷ entries) = elim (Bool-cases (is_named bootname e)) [
  | inl h ↦ rw h (removed (sym (opt_eq_iff e.name bootname h)))
  | inr h ↦ rw h (
      kept (λ q. cc (h, opt_eq_named e.name bootname (sym q)))
        (remove_first-FirstRemoved bootname entries))
]

-- The order for a slot that is marked: for bad the order before without its first entry of the
-- slot's name, and for good that behind an entry of the slot's name.
abbrev pub NewOrder : RaucSlot → Bool → EfiBootorder → EfiBootentry → List EfiBootentry → Type 0
NewOrder slot false b e es = FirstRemoved slot.bootname b.bootorder_entries (e ∷ es)
NewOrder slot true b e es =
    (some e.name ≡ slot.bootname)
    × In e b.all_entries
    × FirstRemoved slot.bootname b.bootorder_entries es

module _ (g : Glib) (x : EfiRegex) (p : Processes) (c : RaucConfig) where
  new_entries-NewOrder :
      (slot : RaucSlot) (good : Bool) (b : EfiBootorder) (e : EfiBootentry) (es : List EfiBootentry)
      → new_entries g x p c slot good b ≡ ok (e ∷ es)
      → NewOrder slot good b e es
  new_entries-NewOrder slot false b e es h =
      subst (FirstRemoved slot.bootname b.bootorder_entries) (ok_same h)
        (remove_first-FirstRemoved slot.bootname b.bootorder_entries)
    where
      ok_same : {xs ys : List EfiBootentry} → ok xs ≡ ok ys → xs ≡ ys
      ok_same q = cc
  new_entries-NewOrder slot true b e es h =
      by_found (find_first (is_named slot.bootname) b.all_entries) refl h
    where
      by_found :
          (o : Option EfiBootentry)
          → find_first (is_named slot.bootname) b.all_entries ≡ o
          → elim o [
            | none ↦ err bootchooser_failed
            | some y ↦ ok (y ∷ remove_first (is_named slot.bootname) b.bootorder_entries)
          ]
            ≡ ok (e ∷ es)
          → NewOrder slot true b e es
      by_found none q k = cc
      by_found (some y) q k =
          let (m, n) = find_first_sound (is_named slot.bootname) b.all_entries q in
          let head : y ≡ e = cc k in
          let tail : remove_first (is_named slot.bootname) b.bootorder_entries ≡ es = cc k in
          (
            subst (λ z. some z.name ≡ slot.bootname) head (sym (opt_eq_iff y.name slot.bootname n)),
            subst (λ z. In z b.all_entries) head m,
            subst (FirstRemoved slot.bootname b.bootorder_entries) tail
                (remove_first-FirstRemoved slot.bootname b.bootorder_entries),
          )

module _ (g : Glib) (laws : GlibLaws g) (x : EfiRegex) (p : Processes) (c : RaucConfig)
    (tool : EfiBootmgr x p) where
  get_state_of :
      (slot : RaucSlot) (b : EfiBootorder) (t : p.State)
      → efi_bootorder_get g x p c t ≡ (ok b, t)
      → efi_get_state g x p c slot t
        ≡ (ok (is_some (find_first (is_named slot.bootname) b.bootorder_entries)), t)
  unfolding efi_get_state
  get_state_of slot b t got = rw got

  -- After a slot is marked, efi_bootorder_get returns a BootOrder that for bad is the order before
  -- without its first entry of the slot's boot name, and for good an entry of that name followed by
  -- the order before without its first such entry. efi_get_state then finds any slot good exactly if
  -- an entry of this order has its boot name. At least one entry has to be left, and the number of
  -- the first one has to be its own.
  pub efi_get_state-efi_set_state :
      (slot other : RaucSlot) (good : Bool) (b : EfiBootorder) (e : EfiBootentry)
      (es : List EfiBootentry) (s : p.State)
      → efi_bootorder_get g x p c s ≡ (ok b, s)
      → new_entries g x p c slot good b ≡ ok (e ∷ es)
      → get_efi_entry_by_bootnum b.all_entries e.num ≡ some e
      → ((efi_set_state g x p c slot good s).0 ≡ ok tt)
        × NewOrder slot good b e es
        × ((b' : EfiBootorder) × (efi_bootorder_get g x p c (efi_set_state g x p c slot good s).1
              ≡ (ok b', (efi_set_state g x p c slot good s).1))
            × (b'.bootorder_entries ≡ e ∷ es)
            × (b'.all_entries ≡ b.all_entries))
        × ((efi_get_state g x p c other (efi_set_state g x p c slot good s).1).0
            ≡ ok (is_some (find_first (is_named other.bootname) (e ∷ es))))
  unfolding efi_set_state
  efi_get_state-efi_set_state slot other good b e es s got new known =
      let k = new_entries-Known g laws x p c tool slot good b e es s got new known in
      let set =
        modify_lem g laws x p c tool e es s k slot good b (view_of-get g laws x p c tool s b got)
          new in
      (
        ap (λ r. r.0) set,
        new_entries-NewOrder g x p c slot good b e es new,
        (
          ordered (tool.entries s) (tool.next s) (e ∷ es),
          subst
              (λ r.
                efi_bootorder_get g x p c r.1
                ≡ (ok (ordered (tool.entries s) (tool.next s) (e ∷ es)), r.1))
              (sym set) (bootorder_get-reordered g laws x p c tool e es s k),
          refl,
          sym
              (view_next g laws x p c tool (tool.entries s) (tool.next s) none (tool.order s) b
                (view_of-get g laws x p c tool s b got)).0,
        ),
        ap (λ r. (efi_get_state g x p c other r.1).0) set
            ∙ ap (λ r. r.0)
                (get_state_of other (ordered (tool.entries s) (tool.next s) (e ∷ es))
                  (reordered g laws x p c tool (e ∷ es) s)
                  (bootorder_get-reordered g laws x p c tool e es s k)),
      )
