-- ===== src/Boot/Barebox/Highest.antt =====
-- barebox_get_primary against its description: the bootable slot of highest priority.
use docker_yocto_kirkstone_n.Prelude.{
  ℕ, ◌<◌, ◌≤◌, ◌≡◌, ◌≢◌, refl, sym, ap, ◌∙◌, List, [], ◌∷◌, Option, none, some, Str, ltb, ◌==◌, In,
  All, Bool-cases, inl, inr, ◌⊎◌, arith,
}
use mathlib.Core.Path.{subst}
use docker_yocto_kirkstone_n.Exec.{Result, ok, err, bootchooser_parse_failed}
use docker_yocto_kirkstone_n.Process.{Processes}
use docker_yocto_kirkstone_n.Glib.{Glib, GlibLaws}
use docker_yocto_kirkstone_n.Slot.{RaucSlot}
use docker_yocto_kirkstone_n.Context.{RaucConfig}
use docker_yocto_kirkstone_n.Boot.Barebox.{
  BareboxSlotState, higher, barebox_scan, barebox_get_primary,
}
use docker_yocto_kirkstone_n.Boot.Barebox.Tool.{
  BareboxState, Defined, state_in, barebox_state_get_lem,
}

module _ (g : Glib) (laws : GlibLaws g) (p : Processes) (c : RaucConfig) (tool : BareboxState p c)
    (s : p.State) where
  abbrev pub state_at : Str → BareboxSlotState
  state_at = state_in g laws p c tool s

  -- A slot with a boot name and attempts left has at most this priority.
  abbrev pub Below : ℕ → RaucSlot → Type 0
  Below top slot =
      (name : Str)
      → slot.bootname ≡ some name
      → (state_at name).attempts ≢ 0
      → (state_at name).prio ≤ top

  -- The slot can be booted and has this priority.
  abbrev pub Stands : ℕ → RaucSlot → Type 0
  Stands top slot =
      (name : Str) × (slot.bootname ≡ some name)
      × ((state_at name).attempts ≢ 0)
      × ((state_at name).prio ≡ top)
      × (0 < top)

  higher_cases :
      (slot : RaucSlot) (state : BareboxSlotState) (o : Option RaucSlot) (top : ℕ)
      → (top ≤ (higher g p c slot state (o, top)).1)
        × (state.attempts ≢ 0 → state.prio ≤ (higher g p c slot state (o, top)).1)
        × ((higher g p c slot state (o, top) ≡ (o, top))
            ⊎ ((higher g p c slot state (o, top) ≡ (some slot, state.prio))
                × (state.attempts ≢ 0)
                × (0 < state.prio)))
  higher_cases slot state o top = elim (Bool-cases (state.attempts == 0)) [
    | inl e ↦ rw e (omega arith, ground arith, inl refl)
    | inr e ↦ elim (Bool-cases (ltb top state.prio)) [
      | inl h ↦ rw (e, h) (ground arith, ground arith, inr (refl, ground arith, ground arith))
      | inr h ↦ rw (e, h) (omega arith, ground arith, inl refl)
    ]
  ]

  -- What the scan returns for the best slot so far and the slots that are left.
  abbrev ScanEnds : Option RaucSlot → ℕ → List RaucSlot → Option RaucSlot → ℕ → Type 0
  ScanEnds o top slots o' top' =
      (top ≤ top')
      × ((t : RaucSlot) → In t slots → Below top' t)
      × (((o' ≡ o) × (top' ≡ top))
          ⊎ ((slot : RaucSlot) × (o' ≡ some slot) × In slot slots × Stands top' slot))

  one_name : {o : Option Str} {a b : Str} → o ≡ some a → o ≡ some b → a ≡ b
  one_name e f = same_text (sym e ∙ f)
    where
      same_text : {a b : Str} → some a ≡ some b → a ≡ b
      same_text h = cc

  no_name : {o : Option Str} {a : Str} → o ≡ none → o ≡ some a → ⊥
  no_name e f = differ (sym e ∙ f)
    where
      differ : {a : Str} → none ≡ some a → ⊥
      differ h = cc

  skip :
      (o : Option RaucSlot) (top : ℕ) (x : RaucSlot) (slots : List RaucSlot) (o' : Option RaucSlot)
      (top' : ℕ)
      → x.bootname ≡ none
      → ScanEnds o top slots o' top'
      → ScanEnds o top (x ∷ slots) o' top'
  skip o top x slots o' top' unnamed (le, below, ends) = (
    le,
    below',
    elim ends [ inl same ↦ inl same | inr (slot, e, m, st) ↦ inr (slot, e, inr m, st) ],
  )
    where
      below' : (t : RaucSlot) → In t (x ∷ slots) → Below top' t
      below' t (inl e) name named att =
          absurd (no_name (sym (ap (λ y. y.bootname) e) ∙ unnamed) named)
      below' t (inr m) name named att = below t m name named att

  step :
      (o : Option RaucSlot) (top : ℕ) (x : RaucSlot) (slots : List RaucSlot) (name : Str)
      (o' : Option RaucSlot) (top' : ℕ)
      → x.bootname ≡ some name
      → ScanEnds
          (higher g p c x (state_at name) (o, top)).0
          (higher g p c x (state_at name) (o, top)).1
          slots
          o'
          top'
      → ScanEnds o top (x ∷ slots) o' top'
  step o top x slots name o' top' e (le, below, ends) =
      let (above, reached, kept) = higher_cases x (state_at name) o top in
      (omega (arith, above, le), below' reached, which kept)
    where
      below' :
          ((state_at name).attempts ≢ 0
            → (state_at name).prio ≤ (higher g p c x (state_at name) (o, top)).1)
          → (t : RaucSlot) → In t (x ∷ slots)
          → Below top' t
      below' reached t (inl q) name' named att =
          let n : name' ≡ name = one_name named (sym (ap (λ y. y.bootname) q) ∙ e) in
          let att' : (state_at name).attempts ≢ 0 = subst (λ k. (state_at k).attempts ≢ 0) n att in
          subst (λ k. (state_at k).prio ≤ top') (sym n) (omega (arith, reached att', le))
      below' reached t (inr m) name' named att = below t m name' named att

      which :
          (higher g p c x (state_at name) (o, top) ≡ (o, top))
            ⊎ ((higher g p c x (state_at name) (o, top) ≡ (some x, (state_at name).prio))
                × ((state_at name).attempts ≢ 0)
                × (0 < (state_at name).prio))
          → ((o' ≡ o) × (top' ≡ top))
            ⊎ ((slot : RaucSlot) × (o' ≡ some slot) × In slot (x ∷ slots) × Stands top' slot)
      which kept = elim ends [
        | inr (slot, q, m, st) ↦ inr (slot, q, inr m, st)
        | inl (q, r) ↦ elim kept [
          | inl h ↦ inl (q ∙ ap (λ y. y.0) h, r ∙ ap (λ y. y.1) h)
          | inr (h, att, pos) ↦ inr (
            x,
            q ∙ ap (λ y. y.0) h,
            inl refl,
            (
              name,
              e,
              att,
              sym (r ∙ ap (λ y. y.1) h),
              subst (λ k. 0 < k) (sym (r ∙ ap (λ y. y.1) h)) pos,
            ),
          )
        ]
      ]

  -- The state defines the variables of the slot's boot name, if it has one.
  abbrev pub KnownSlot : RaucSlot → Type 0
  KnownSlot slot = Defined g laws p c tool slot.bootname

  run_named :
      (o : Option RaucSlot) (top : ℕ) (x : RaucSlot) (slots : List RaucSlot) (name : Str)
      → x.bootname ≡ some name
      → Defined g laws p c tool (some name)
      → (r : Result (Option RaucSlot) × p.State)
      → barebox_scan g p c (higher g p c x (state_at name) (o, top)) slots s ≡ r
      → barebox_scan g p c (o, top) (x ∷ slots) s ≡ r
  unfolding barebox_scan
  run_named o top x slots name e known r h =
      simp e (rw (barebox_state_get_lem g laws p c tool name s known) h)

  scan_ends :
      (o : Option RaucSlot) (top : ℕ) (slots : List RaucSlot)
      → All KnownSlot slots
      → (o' : Option RaucSlot) × (top' : ℕ) × (barebox_scan g p c (o, top) slots s ≡ (ok o', s))
        × ScanEnds o top slots o' top'
  unfolding barebox_scan
  scan_ends o top [] known = (o, top, refl, (omega arith, λ t m. absurd m, inl (refl, refl)))
  scan_ends o top (x ∷ slots) (k, ks) = go x.bootname refl k (λ o top. scan_ends o top slots ks)
    where
      go :
          (b : Option Str)
          → x.bootname ≡ b
          → Defined g laws p c tool b
          → ((o : Option RaucSlot) (top : ℕ)
              → (o' : Option RaucSlot) × (top' : ℕ) × (barebox_scan g p c (o, top) slots s
                  ≡ (ok o', s))
                × ScanEnds o top slots o' top')
          → (o' : Option RaucSlot) × (top' : ℕ) × (barebox_scan g p c (o, top) (x ∷ slots) s
              ≡ (ok o', s))
            × ScanEnds o top (x ∷ slots) o' top'
      go none e k rest =
          let (o', top', r, ends) = rest o top in
          (o', top', rw e r, skip o top x slots o' top' e ends)
      go (some name) e k rest =
          let (o', top', r, ends) =
            rest (higher g p c x (state_at name) (o, top)).0
              (higher g p c x (state_at name) (o, top)).1 in
          (o', top', run_named o top x slots name e k _ r, step o top x slots name o' top' e ends)

  -- Where the state defines the variables of every boot name of the table, barebox_get_primary
  -- changes nothing. It returns a slot of the table with attempts left and a
  -- priority above 0, and no slot with attempts left has a higher one; or no slot with attempts left
  -- has a priority above 0, and it fails.
  pub barebox_get_primary_highest :
      All KnownSlot c.slots
      → ((slot : RaucSlot) × (top : ℕ) × (barebox_get_primary g p c s ≡ (ok slot, s))
          × In slot c.slots
          × Stands top slot
          × ((t : RaucSlot) → In t c.slots → Below top t))
        ⊎ ((barebox_get_primary g p c s ≡ (err bootchooser_parse_failed, s))
            × ((t : RaucSlot) → In t c.slots → Below 0 t))
  unfolding barebox_get_primary
  barebox_get_primary_highest known =
      let (o, top, r, (le, below, ends)) = scan_ends none 0 c.slots known in
      elim ends [
        | inl (q, z) ↦ inr (rw (r, q), λ t m. subst (λ k. Below k t) z (below t m))
        | inr (slot, q, m, st) ↦ inl (slot, top, rw (r, q), m, st, below)
      ]
