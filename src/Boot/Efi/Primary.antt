-- ===== src/Boot/Efi/Primary.antt =====
-- Making a slot primary with EFI, and what efi_get_primary then returns.
use docker_yocto_kirkstone_n.Prelude.{
  ◌≡◌, refl, sym, ap, ◌∙◌, Bool, true, false, List, [], ◌∷◌, map, Option, none, some, Str, join,
  find_first, All, Bool-cases, inl, inr, ◌⊎◌, if◌then◌else◌,
}
use mathlib.Core.Path.{subst}
use docker_yocto_kirkstone_n.Exec.{ok, err, bootchooser_failed}
use docker_yocto_kirkstone_n.Process.{Processes, wait_check}
use docker_yocto_kirkstone_n.Glib.{Glib, GlibLaws}
use docker_yocto_kirkstone_n.Slot.{RaucSlot}
use docker_yocto_kirkstone_n.Context.{RaucConfig}
use docker_yocto_kirkstone_n.Boot.Owners.{Owns, find_owner}
use docker_yocto_kirkstone_n.Boot.Efi.Entries.{
  EfiBootentry, EfiBootorder, EfiRegex, comma, is_named, entries_of, get_efi_entry_by_bootnum,
  remove_first,
}
use docker_yocto_kirkstone_n.Boot.Efi.{
  bootorder_argv, bootnext_argv, next_entry, new_entries, with_next, efi_bootorder_set,
  efi_set_bootnext, efi_bootorder_get, efi_set_temp_primary, efi_modify_persistent_bootorder,
  efi_scan, efi_get_primary, efi_set_primary,
}
use docker_yocto_kirkstone_n.Boot.Efi.Tool.{BootNum, EfiBootmgr, view_of, efi_bootorder_get_lem}
use docker_yocto_kirkstone_n.Boot.Efi.Order.{
  Known, in_order-Known, remove_first-All, in_order-nums, Known-BootNum, nums-BootNum,
}

abbrev pub nums : List EfiBootentry → List Str
nums es = map (λ e. e.num) es

-- The listing with these entries in its order.
abbrev pub ordered : List (Str × Str) → Option Str → List EfiBootentry → EfiBootorder
ordered ms next es = record {
  bootorder_entries = es;
  all_entries = entries_of ms;
  bootnext = next_entry (entries_of ms) next;
}

pub view_of-nums :
    (ms : List (Str × Str)) (next : Option Str) (e : EfiBootentry) (es : List EfiBootentry)
    → All (Known (entries_of ms)) (e ∷ es)
    → view_of ms next (nums (e ∷ es)) ≡ ok (ordered ms next (e ∷ es))
unfolding get_efi_entry_by_bootnum find_first
view_of-nums [] next e es (k, ks) = cc
view_of-nums (m ∷ ms) next e es k =
    ap (λ l. ok (ordered (m ∷ ms) next l)) (in_order-nums (entries_of (m ∷ ms)) (e ∷ es) k)

module _ (g : Glib) (laws : GlibLaws g) (x : EfiRegex) (p : Processes) (c : RaucConfig)
    (tool : EfiBootmgr x p) where
  abbrev pub all_in : p.State → List EfiBootentry
  all_in s = entries_of (tool.entries s)

  -- The machine after the order of the entries is set.
  abbrev pub reordered : List EfiBootentry → p.State → p.State
  reordered es s = (p.run (bootorder_argv (join (nums es) comma)) s).1

  module _ (e : EfiBootentry) (es : List EfiBootentry) (s : p.State)
      (known : All (Known (all_in s)) (e ∷ es)) where
    clean : All BootNum (nums (e ∷ es))
    clean = nums-BootNum (tool.entries s) (e ∷ es) (tool.clean_entries s) known

    bootorder_set_lem :
        efi_bootorder_set g x p c (join (nums (e ∷ es)) comma) s ≡ (ok tt, reordered (e ∷ es) s)
    unfolding efi_bootorder_set wait_check
    bootorder_set_lem = rw (tool.set_order_exit e.num (nums es) s clean)

    pub bootorder_get-reordered :
        efi_bootorder_get g x p c (reordered (e ∷ es) s)
        ≡ (ok (ordered (tool.entries s) (tool.next s) (e ∷ es)), reordered (e ∷ es) s)
    bootorder_get-reordered =
        let (o, ms, n) = tool.set_order e.num (nums es) s clean in
        efi_bootorder_get_lem g laws x p c tool (reordered (e ∷ es) s)
        ∙ ap (λ r. (r, reordered (e ∷ es) s))
            (ap
                (λ l.
                  view_of l (tool.next (reordered (e ∷ es) s)) (tool.order (reordered (e ∷ es) s)))
                ms
              ∙ ap (λ l. view_of (tool.entries s) l (tool.order (reordered (e ∷ es) s))) n
              ∙ ap (λ l. view_of (tool.entries s) (tool.next s) l) o
              ∙ view_of-nums (tool.entries s) (tool.next s) e es known)

    pub modify_lem :
        (slot : RaucSlot) (prepend : Bool) (b : EfiBootorder)
        → view_of (tool.entries s) (tool.next s) (tool.order s) ≡ ok b
        → new_entries g x p c slot prepend b ≡ ok (e ∷ es)
        → efi_modify_persistent_bootorder g x p c slot prepend s ≡ (ok tt, reordered (e ∷ es) s)
    unfolding efi_modify_persistent_bootorder
    modify_lem slot prepend b seen new =
        rw (efi_bootorder_get_lem g laws x p c tool s, seen, new, bootorder_set_lem)

  pub view_of-get :
      (s : p.State) (b : EfiBootorder)
      → efi_bootorder_get g x p c s ≡ (ok b, s)
      → view_of (tool.entries s) (tool.next s) (tool.order s) ≡ ok b
  view_of-get s b h = ap (λ r. r.0) (sym (efi_bootorder_get_lem g laws x p c tool s) ∙ h)

  -- BootNext is no part of what else is listed.
  pub view_next :
      (ms : List (Str × Str)) (next next' : Option Str) (order : List Str) (b : EfiBootorder)
      → view_of ms next order ≡ ok b
      → (b.all_entries ≡ entries_of ms)
        × (b.bootnext ≡ next_entry (entries_of ms) next)
        × (view_of ms next' order ≡ ok (record b { bootnext = next_entry (entries_of ms) next' }))
        × All (Known (entries_of ms)) b.bootorder_entries
  view_next [] next next' order b h = cc
  view_next (m ∷ ms) next next' [] b h = cc
  view_next (m ∷ ms) next next' (n ∷ ns) b h =
      subst
        (λ y.
          (y.all_entries ≡ entries_of (m ∷ ms))
          × (y.bootnext ≡ next_entry (entries_of (m ∷ ms)) next)
          × (view_of (m ∷ ms) next' (n ∷ ns)
              ≡ ok (record y { bootnext = next_entry (entries_of (m ∷ ms)) next' }))
          × All (Known (entries_of (m ∷ ms))) y.bootorder_entries)
        (the_same h) (refl, refl, refl, in_order-Known (entries_of (m ∷ ms)) (n ∷ ns))
    where
      the_same : {a b : EfiBootorder} → ok a ≡ ok b → a ≡ b
      the_same q = cc

  -- Every entry of the new order is the one its number finds.
  pub new_entries-Known :
      (slot : RaucSlot) (good : Bool) (b : EfiBootorder) (e : EfiBootentry) (es : List EfiBootentry)
      (s : p.State)
      → efi_bootorder_get g x p c s ≡ (ok b, s)
      → new_entries g x p c slot good b ≡ ok (e ∷ es)
      → get_efi_entry_by_bootnum b.all_entries e.num ≡ some e
      → All (Known (all_in s)) (e ∷ es)
  new_entries-Known slot good b e es s got new known =
      let (all, old, seen, k) =
        view_next (tool.entries s) (tool.next s) none (tool.order s) b (view_of-get s b got) in
      let rest =
        remove_first-All (Known (all_in s)) (is_named slot.bootname) b.bootorder_entries k in
      by_mark good rest (subst (λ l. Known l e) all known) new
    where
      the_list : {k l : List EfiBootentry} → ok k ≡ ok l → k ≡ l
      the_list q = cc

      the_tail : {a c : EfiBootentry} {k l : List EfiBootentry} → ok (a ∷ k) ≡ ok (c ∷ l) → k ≡ l
      the_tail q = cc

      by_entry :
          (o : Option EfiBootentry) (r : List EfiBootentry)
          → All (Known (all_in s)) r
          → Known (all_in s) e
          → elim o [ none ↦ err bootchooser_failed | some a ↦ ok (a ∷ r) ] ≡ ok (e ∷ es)
          → All (Known (all_in s)) (e ∷ es)
      by_entry none r rest head q = cc
      by_entry (some a) r rest head q = (head, subst (All (Known (all_in s))) (the_tail q) rest)

      by_mark :
          (good : Bool)
          → All (Known (all_in s)) (remove_first (is_named slot.bootname) b.bootorder_entries)
          → Known (all_in s) e
          → new_entries g x p c slot good b ≡ ok (e ∷ es)
          → All (Known (all_in s)) (e ∷ es)
      by_mark false rest head q = subst (All (Known (all_in s))) (the_list q) rest
      by_mark true rest head q =
          by_entry (find_first (is_named slot.bootname) b.all_entries)
            (remove_first (is_named slot.bootname) b.bootorder_entries) rest head q

  scan_owner :
      (slot : RaucSlot) (e : EfiBootentry) (es : List EfiBootentry)
      → Owns c.slots slot e.name
      → efi_scan g x p c (e ∷ es) ≡ some slot
  unfolding efi_scan
  scan_owner slot e es o = rw (efi_scan, find_owner c.slots slot e.name o)

  primary_of :
      (slot : RaucSlot) (e : EfiBootentry) (es : List EfiBootentry) (b : EfiBootorder) (s : p.State)
      → Owns c.slots slot e.name
      → efi_bootorder_get g x p c s ≡ (ok b, s)
      → with_next b.bootnext b.bootorder_entries ≡ e ∷ es
      → efi_get_primary g x p c s ≡ (ok slot, s)
  unfolding efi_get_primary
  primary_of slot e es b s o got first = rw (got, first, scan_owner slot e es o)

  module _ (slot : RaucSlot) (e : EfiBootentry) (b : EfiBootorder) (s : p.State)
      (o : Owns c.slots slot e.name) (got : efi_bootorder_get g x p c s ≡ (ok b, s))
      (entry : find_first (is_named slot.bootname) b.all_entries ≡ some e)
      (known : get_efi_entry_by_bootnum b.all_entries e.num ≡ some e) where
    entry-Known : Known (all_in s) e
    entry-Known =
        subst (λ l. Known l e)
          (view_next (tool.entries s) (tool.next s) none (tool.order s) b (view_of-get s b got)).0
          known

    abbrev next_set : p.State
    next_set = (p.run (bootnext_argv e.num) s).1

    num_clean : BootNum e.num
    num_clean = Known-BootNum (tool.entries s) e (tool.clean_entries s) entry-Known

    temp_lem : efi_set_temp_primary g x p c slot s ≡ (ok tt, next_set)
    unfolding efi_set_temp_primary efi_set_bootnext wait_check
    temp_lem = rw (got, entry, tool.set_next_exit e.num s num_clean)

    get-next_set :
        efi_bootorder_get g x p c next_set ≡ (ok (record b { bootnext = some e }), next_set)
    get-next_set =
        let (n, ms, order) = tool.set_next e.num s num_clean in
        let (all, old, seen, k) =
          view_next (tool.entries s) (tool.next s) (some e.num) (tool.order s) b
            (view_of-get s b got) in
        efi_bootorder_get_lem g laws x p c tool next_set
        ∙ ap (λ r. (r, next_set))
            (ap (λ l. view_of l (tool.next next_set) (tool.order next_set)) ms
              ∙ ap (λ l. view_of (tool.entries s) l (tool.order next_set)) n
              ∙ ap (λ l. view_of (tool.entries s) (some e.num) l) order
              ∙ seen
              ∙ ap (λ y. ok (record b { bootnext = y })) entry-Known)

    rest-Known :
        All (Known (all_in s)) (e ∷ remove_first (is_named slot.bootname) b.bootorder_entries)
    rest-Known =
        let (all, old, seen, k) =
          view_next (tool.entries s) (tool.next s) none (tool.order s) b (view_of-get s b got) in
        (
          entry-Known,
          remove_first-All (Known (all_in s)) (is_named slot.bootname) b.bootorder_entries k,
        )

    persistent_lem :
        efi_modify_persistent_bootorder g x p c slot true s
        ≡ (ok tt, reordered (e ∷ remove_first (is_named slot.bootname) b.bootorder_entries) s)
    persistent_lem =
        modify_lem e (remove_first (is_named slot.bootname) b.bootorder_entries) s rest-Known slot
          true b (view_of-get s b got) (rw (new_entries, entry))

    by_mode :
        (mode : Bool)
        → c.efi_use_bootnext ≡ mode
        → efi_set_primary g x p c slot s
          ≡ (if mode
                then efi_set_temp_primary g x p c slot
                else efi_modify_persistent_bootorder g x p c slot true)
              s
    unfolding efi_set_primary
    by_mode mode m =
        ap
          (λ k.
            (if k
                then efi_set_temp_primary g x p c slot
                else efi_modify_persistent_bootorder g x p c slot true)
              s)
          m

    abbrev SetAndGot : Type 0
    SetAndGot =
        ((efi_set_primary g x p c slot s).0 ≡ ok tt)
        × ((efi_get_primary g x p c (efi_set_primary g x p c slot s).1).0 ≡ ok slot)

    from_run :
        (t : p.State)
        → efi_set_primary g x p c slot s ≡ (ok tt, t)
        → efi_get_primary g x p c t ≡ (ok slot, t)
        → SetAndGot
    from_run t set then_got =
        (ap (λ r. r.0) set, ap (λ r. (efi_get_primary g x p c r.1).0) set ∙ ap (λ r. r.0) then_got)

    by_bootnext : c.efi_use_bootnext ≡ true → SetAndGot
    by_bootnext m = from_run next_set (by_mode true m ∙ temp_lem) (
        primary_of slot e b.bootorder_entries (record b { bootnext = some e }) next_set o
          get-next_set refl)

    by_order : c.efi_use_bootnext ≡ false → b.bootnext ≡ none → SetAndGot
    by_order m n =
        from_run (reordered (e ∷ remove_first (is_named slot.bootname) b.bootorder_entries) s)
          (by_mode false m ∙ persistent_lem)
          (primary_of slot e (remove_first (is_named slot.bootname) b.bootorder_entries)
            (ordered (tool.entries s) (tool.next s)
              (e ∷ remove_first (is_named slot.bootname) b.bootorder_entries))
            _ o
            (bootorder_get-reordered e (remove_first (is_named slot.bootname) b.bootorder_entries) s
              rest-Known)
            (ap (λ y. with_next y (e ∷ remove_first (is_named slot.bootname) b.bootorder_entries))
              no_next))
      where
        no_next : next_entry (entries_of (tool.entries s)) (tool.next s) ≡ none
        no_next =
            sym
              (view_next (tool.entries s) (tool.next s) none (tool.order s) b
                (view_of-get s b got)).1
            ∙ n

  -- efi_set_primary succeeds, and efi_get_primary then returns the slot that was made primary, be it
  -- by BootNext or by BootOrder. efibootmgr has to list an entry with the slot's boot name, whose
  -- number no entry before it has; the slot has to be the only one of the table with that boot name;
  -- and where BootOrder is written, BootNext may not be set already.
  pub efi_get_primary-efi_set_primary :
      (slot : RaucSlot) (e : EfiBootentry) (b : EfiBootorder) (s : p.State)
      → Owns c.slots slot e.name
      → efi_bootorder_get g x p c s ≡ (ok b, s)
      → find_first (is_named slot.bootname) b.all_entries ≡ some e
      → get_efi_entry_by_bootnum b.all_entries e.num ≡ some e
      → (c.efi_use_bootnext ≡ true) ⊎ (b.bootnext ≡ none)
      → ((efi_set_primary g x p c slot s).0 ≡ ok tt)
        × ((efi_get_primary g x p c (efi_set_primary g x p c slot s).1).0 ≡ ok slot)
  efi_get_primary-efi_set_primary slot e b s o got entry known mode =
      elim (Bool-cases c.efi_use_bootnext) [
        | inl next ↦ by_bootnext slot e b s o got entry known next
        | inr order ↦ by_order slot e b s o got entry known order (unset order mode)
      ]
    where
      unset :
          c.efi_use_bootnext ≡ false
          → (c.efi_use_bootnext ≡ true) ⊎ (b.bootnext ≡ none)
          → b.bootnext ≡ none
      unset order (inl next) = cc
      unset order (inr n) = n
