-- ===== src/Boot/Grub/Sound.antt =====
-- What grub_get_primary returns: a slot of the table that grub_get_state finds good.
use mathlib.Core.Path.{subst}
use docker_yocto_kirkstone_n.Prelude.{
  ◌≡◌, refl, sym, ap, ◌∙◌, Bool, true, false, ◌==◌, List, [], ◌∷◌, Option, none, some, Str, opt_eq,
  length, arith, inl, inr, In, All-In, Bool-cases,
}
use docker_yocto_kirkstone_n.Exec.{Result, ok, err, next, or_else, bootchooser_parse_failed}
use docker_yocto_kirkstone_n.Process.{Processes}
use docker_yocto_kirkstone_n.Glib.{Glib, GlibLaws, space}
use docker_yocto_kirkstone_n.Slot.{RaucSlot}
use docker_yocto_kirkstone_n.Context.{RaucConfig}
use docker_yocto_kirkstone_n.Boot.Names.{is_listed}
use docker_yocto_kirkstone_n.Boot.Env.{lookup_env}
use docker_yocto_kirkstone_n.Boot.Hygiene.{BootName, BootNames, OptBootName}
use docker_yocto_kirkstone_n.Boot.Grub.{
  chomped, grub_env_get, grub_slot_good, grub_get_state, grub_match, grub_scan, grub_get_primary,
}
use docker_yocto_kirkstone_n.Boot.Grub.Tool.{GrubEditenv, grub_env_get_lem}
use docker_yocto_kirkstone_n.Boot.Grub.Vars.{order_var}
use docker_yocto_kirkstone_n.Boot.Grub.State.{grub_slot_good-good_of, grub_slot_bootable_eq}
use docker_yocto_kirkstone_n.Boot.Owners.{opt_eq_iff, is_listed-In}

module _ (g : Glib) (p : Processes) (c : RaucConfig) (s : p.State) where
  -- Testing a boot name leaves the machine as it is.
  abbrev Quiet : List RaucSlot → Type 0
  Quiet slots =
      (t : RaucSlot) (name : Str)
      → In t slots
      → t.bootname ≡ some name
      → (grub_slot_good g p c name s).1 ≡ s

  -- A slot that was found for a boot name.
  abbrev Found : Str → List RaucSlot → RaucSlot → Type 0
  Found name slots t =
      In t slots × (t.bootname ≡ some name) × (grub_slot_good g p c name s ≡ (ok true, s))

  abbrev MatchEnds : Str → List RaucSlot → Result (Option RaucSlot) → p.State → Type 0
  MatchEnds name slots (ok (some t)) s' = Found name slots t × (s' ≡ s)
  MatchEnds name slots (ok none) s' = s' ≡ s
  MatchEnds name slots (err e) s' = s' ≡ s

  weaken :
      (name : Str) (t : RaucSlot) (slots : List RaucSlot) (r : Result (Option RaucSlot))
      (s' : p.State)
      → MatchEnds name slots r s'
      → MatchEnds name (t ∷ slots) r s'
  weaken name t slots (ok (some x)) s' ((m, e, h), q) = ((inr m, e, h), q)
  weaken name t slots (ok none) s' h = h
  weaken name t slots (err e) s' h = h

  match_ends :
      (name : Str) (slots : List RaucSlot)
      → Quiet slots
      → MatchEnds name slots (grub_match g p c name slots s).0 (grub_match g p c name slots s).1
  unfolding grub_match
  match_ends name [] quiet = refl
  match_ends name (t ∷ slots) quiet = elim (Bool-cases (opt_eq (some name) t.bootname)) [
    | inr h ↦
        rw (h, grub_match)
          (weaken name t slots _ _ (match_ends name slots (λ x n m e. quiet x n (inr m) e)))
    | inl h ↦
        matched (match_ends name slots (λ x n m e. quiet x n (inr m) e)) h
          (opt_eq_iff name t.bootname h) (grub_slot_good g p c name s).0
          (λ i. (
            (grub_slot_good g p c name s).0,
            quiet t name (inl refl) (opt_eq_iff name t.bootname h) i,
          ))
  ]
    where
      matched :
          MatchEnds name slots (grub_match g p c name slots s).0 (grub_match g p c name slots s).1
          → opt_eq (some name) t.bootname ≡ true
          → t.bootname ≡ some name
          → (r : Result Bool) → grub_slot_good g p c name s ≡ (r, s)
          → MatchEnds name
              (t ∷ slots)
              (grub_match g p c name (t ∷ slots) s).0
              (grub_match g p c name (t ∷ slots) s).1
      matched rest h named (ok true) e =
          rw (h, grub_slot_bootable_eq g p c name s ∙ e, grub_match) ((inl refl, named, e), refl)
      matched rest h named (ok false) e =
          rw (h, grub_slot_bootable_eq g p c name s ∙ e, grub_match) (weaken name t slots _ _ rest)
      matched rest h named (err x) e =
          rw (h, grub_slot_bootable_eq g p c name s ∙ e, grub_match) refl

  abbrev ScanEnds : List Str → Result (Option RaucSlot) → p.State → Type 0
  ScanEnds bootnames (ok (some t)) s' =
      (name : Str) × In name bootnames × Found name c.slots t × (s' ≡ s)
  ScanEnds bootnames (ok none) s' = s' ≡ s
  ScanEnds bootnames (err e) s' = s' ≡ s

  scan_weaken :
      (b : Str) (bs : List Str) (r : Result (Option RaucSlot)) (s' : p.State)
      → ScanEnds bs r s'
      → ScanEnds (b ∷ bs) r s'
  scan_weaken b bs (ok (some x)) s' (name, m, f, q) = (name, inr m, f, q)
  scan_weaken b bs (ok none) s' h = h
  scan_weaken b bs (err e) s' h = h

  scan_ends :
      (bs : List Str)
      → Quiet c.slots
      → ScanEnds bs (grub_scan g p c bs s).0 (grub_scan g p c bs s).1
  unfolding grub_scan
  scan_ends [] quiet = refl
  scan_ends (b ∷ bs) quiet =
      go (scan_ends bs quiet) (grub_match g p c b c.slots s).0 (grub_match g p c b c.slots s).1 refl
        (match_ends b c.slots quiet)
    where
      go :
          ScanEnds bs (grub_scan g p c bs s).0 (grub_scan g p c bs s).1
          → (r : Result (Option RaucSlot)) (s' : p.State) → grub_match g p c b c.slots s ≡ (r, s')
          → MatchEnds b c.slots r s'
          → ScanEnds (b ∷ bs) (grub_scan g p c (b ∷ bs) s).0 (grub_scan g p c (b ∷ bs) s).1
      go rest (ok (some t)) s' e (f, q) = rw (e, grub_scan) (b, inl refl, f, q)
      go rest (ok none) s' e q =
          rw (e ∙ ap (λ x. (ok none, x)) q, grub_scan) (scan_weaken b bs _ _ rest)
      go rest (err x) s' e q = rw (e, grub_scan) q

module _ (g : Glib) (laws : GlibLaws g) (p : Processes) (c : RaucConfig) (path : Str)
    (configured : c.grubenv_path ≡ some path) (tool : GrubEditenv p path)
    (names : BootNames c.slots) where
  slot_BootName :
      (t : RaucSlot) (name : Str) → In t c.slots → t.bootname ≡ some name → BootName name
  slot_BootName t name m e =
      subst OptBootName e (All-In (λ x. OptBootName x.bootname) c.slots names m)

  quiet : (s : p.State) → Quiet g p c s c.slots
  quiet s t name m e =
      ap (λ r. r.1)
        (grub_slot_good-good_of g laws p c path configured tool name s (slot_BootName t name m e))

  listed_good :
      (t : RaucSlot) (name order : Str) (s : p.State)
      → t.bootname ≡ some name
      → grub_env_get g p c order_var s ≡ (chomped g (some order), s)
      → is_listed (g.strsplit (g.strchomp order) space) name ≡ true
      → grub_slot_good g p c name s ≡ (ok true, s)
      → grub_get_state g p c t s ≡ (ok true, s)
  unfolding grub_get_state
  listed_good t name order s named e listed good = simp named (rw (e, listed) good)

  -- grub_get_primary changes nothing, and a slot that it returns is in the table and good by
  -- grub_get_state. Every boot name of the table has to be free of white space and `=`.
  pub grub_get_primary_sound :
      (slot : RaucSlot) (s s' : p.State)
      → grub_get_primary g p c s ≡ (ok slot, s')
      → In slot c.slots × (grub_get_state g p c slot s ≡ (ok true, s)) × (s' ≡ s)
  unfolding grub_get_primary
  grub_get_primary_sound slot s s' returned =
      from_order (lookup_env order_var (tool.env s))
        (grub_env_get_lem g laws p c path configured tool order_var s (omega arith)) returned
    where
      from_scan :
          (order : Str) (r : Result (Option RaucSlot)) (t : p.State)
          → grub_env_get g p c order_var s ≡ (chomped g (some order), s)
          → ScanEnds g p c s (g.strsplit (g.strchomp order) space) r t
          → next r (λ primary. or_else primary bootchooser_parse_failed) t ≡ (ok slot, s')
          → In slot c.slots × (grub_get_state g p c slot s ≡ (ok true, s)) × (s' ≡ s)
      from_scan order (ok (some x)) t e (name, listed, (m, named, good), q) h =
          let same : x ≡ slot = cc h in
          let left : t ≡ s' = cc h in
          subst (λ y. In y c.slots × (grub_get_state g p c y s ≡ (ok true, s)) × (s' ≡ s)) same
            (m, listed_good x name order s named e (is_listed-In _ name listed) good, sym left ∙ q)
      from_scan order (ok none) t e ends h = cc
      from_scan order (err x) t e ends h = cc

      from_order :
          (order : Option Str)
          → grub_env_get g p c order_var s ≡ (chomped g order, s)
          → grub_get_primary g p c s ≡ (ok slot, s')
          → In slot c.slots × (grub_get_state g p c slot s ≡ (ok true, s)) × (s' ≡ s)
      from_order none e h = cc (rw e at h)
      from_order (some order) e h = elim (Bool-cases (length order == 0)) [
        | inl empty ↦ cc (rw (e, empty) at h)
        | inr some_text ↦
            from_scan order _ _ e
              (scan_ends g p c s (g.strsplit (g.strchomp order) space) (quiet s))
              (rw (e, some_text) at h)
      ]
