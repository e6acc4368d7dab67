-- ===== src/Boot/Grub/Primary.antt =====
-- grub_set_primary and grub_get_primary.
use docker_yocto_kirkstone_n.Prelude.{
  suc, ◌≡◌, ◌≢◌, refl, ap, ◌∙◌, true, false, ◌==◌, List, [], ◌∷◌, Option, none, some, Str, opt_eq,
  length, arith, inl, inr, In, All, All-In, Lacks, Bool-cases, join, ◌⊎◌,
}
use mathlib.Core.Path.{subst}
use docker_yocto_kirkstone_n.Exec.{ok}
use docker_yocto_kirkstone_n.Process.{Processes}
use docker_yocto_kirkstone_n.Glib.{Glib, GlibLaws, space, newline}
use docker_yocto_kirkstone_n.Slot.{RaucSlot}
use docker_yocto_kirkstone_n.Context.{RaucConfig}
use docker_yocto_kirkstone_n.Boot.Names.{other_bootnames, bootchooser_order_primary-join}
use docker_yocto_kirkstone_n.Boot.Env.{lookup_env, assigned, equals, CleanEntry}
use docker_yocto_kirkstone_n.Boot.Owners.{Owns, opt_eq_iff, opt_eq_named}
use docker_yocto_kirkstone_n.Boot.Hygiene.{
  BootName, BootNames, OptBootName, other_bootnames-BootName, strsplit-order, EndsGraphic-ne-nil,
  join-EndsGraphic, names-Lacks, join-Lacks,
}
use docker_yocto_kirkstone_n.Boot.Grub.{
  chomped, grub_env_get, grub_env_set, grub_slot_good, grub_match, grub_scan, grub_get_primary,
  grub_set_primary,
}
use docker_yocto_kirkstone_n.Boot.Grub.Tool.{GrubEditenv, grub_env_get_lem, grub_env_set_lem, after}
use docker_yocto_kirkstone_n.Boot.Grub.Vars.{
  primary_pairs-primary_env, ok_var, try_var, order_var, primary_env, primary_env-Clean,
  primary_env-ok, primary_env-try, primary_env-order,
}
use docker_yocto_kirkstone_n.Boot.Grub.State.{
  grub_slot_good-good_of, grub_slot_bootable_eq, verdict-flag,
}

module _ (g : Glib) (p : Processes) (c : RaucConfig) where
  match_owner :
      (name : Str) (slots : List RaucSlot) (slot : RaucSlot) (s : p.State)
      → Owns slots slot name
      → grub_slot_good g p c name s ≡ (ok true, s)
      → grub_match g p c name slots s ≡ (ok (some slot), s)
  unfolding grub_match
  match_owner name [] slot s o good = absurd o.listed
  match_owner name (t ∷ slots) slot s o good = elim (Bool-cases (opt_eq (some name) t.bootname)) [
    | inl h ↦
        rw (h, grub_match)
          (rw (grub_slot_bootable_eq g p c name s ∙ good)
            (ap (λ x. (ok (some x), s)) (o.only t (inl refl) (opt_eq_iff name _ h))))
    | inr h ↦ rw (h, grub_match) (match_owner name slots slot s (owner_below h) good)
  ]
    where
      below : opt_eq (some name) t.bootname ≡ false → (t ≡ slot) ⊎ In slot slots → In slot slots
      below h (inl e) = cc (opt_eq_named name t.bootname (ap (λ x. x.bootname) e ∙ o.named), h)
      below h (inr m) = m

      owner_below : opt_eq (some name) t.bootname ≡ false → Owns slots slot name
      owner_below h = record {
        listed = below h o.listed;
        named = o.named;
        only = λ x m e. o.only x (inr m) e;
      }

  get_primary_first :
      (name order : Str) (rest : List Str) (slot : RaucSlot) (s : p.State)
      → Owns c.slots slot name
      → grub_env_get g p c order_var s ≡ (chomped g (some order), s)
      → order ≢ []
      → g.strsplit (g.strchomp order) space ≡ name ∷ rest
      → grub_slot_good g p c name s ≡ (ok true, s)
      → grub_get_primary g p c s ≡ (ok slot, s)
  unfolding grub_get_primary grub_scan
  get_primary_first name [] rest slot s o e ne split good = absurd (ne refl)
  get_primary_first name (x ∷ order) rest slot s o e ne split good =
      rw (e, nonempty, split, match_owner name c.slots slot s o good)
    where
      nonempty : (suc (length order) == 0) ≡ false
      nonempty = ground arith

module _ (g : Glib) (laws : GlibLaws g) (p : Processes) (c : RaucConfig) (path : Str)
    (configured : c.grubenv_path ≡ some path) (tool : GrubEditenv p path)
    (names : BootNames c.slots) where
  module _ (slot : RaucSlot) (name : Str) (s : p.State) (o : Owns c.slots slot name) where
    abbrev order_names : List Str
    order_names = name ∷ other_bootnames slot c.slots

    abbrev order : Str
    order = join order_names space

    bootname : BootName name
    bootname =
        named_BootName slot.bootname o.named
          (All-In (λ x. OptBootName x.bootname) c.slots names o.listed)
      where
        named_BootName : (b : Option Str) → b ≡ some name → OptBootName b → BootName name
        named_BootName none e h = cc
        named_BootName (some x) e h = subst OptBootName e h

    order_BootNames : All BootName order_names
    order_BootNames = (bootname, other_bootnames-BootName slot c.slots names)

    order-Lacks : Lacks newline order
    order-Lacks =
        join-Lacks order_names newline (omega arith)
          (names-Lacks order_names newline (omega arith) order_BootNames)

    clean : All CleanEntry (primary_env name order)
    clean = primary_env-Clean name order bootname order-Lacks

    abbrev activated : p.State
    activated = after g laws p c path configured tool (primary_env name order) s

    set_primary_lem : grub_set_primary g p c slot s ≡ (ok tt, activated)
    unfolding grub_set_primary
    set_primary_lem =
        simp (o.named, bootchooser_order_primary-join c.slots slot o.named)
          (ap (λ pairs. grub_env_set g p c pairs s) (primary_pairs-primary_env name order)
            ∙ grub_env_set_lem g laws p c path configured tool (primary_env name order) s clean)

    read-activated :
        (key : Str)
        → lookup_env key (tool.env activated)
          ≡ assigned (primary_env name order) key (lookup_env key (tool.env s))
    read-activated key = tool.set_env (primary_env name order) s key clean

    get-activated :
        (key : Str) {value : Str}
        → Lacks equals key
        → lookup_env key (tool.env activated) ≡ some value
        → grub_env_get g p c key activated ≡ (chomped g (some value), activated)
    get-activated key hk e =
        grub_env_get_lem g laws p c path configured tool key activated hk
        ∙ ap (λ x. (chomped g x, activated)) e

    good-activated : grub_slot_good g p c name activated ≡ (ok true, activated)
    good-activated =
        grub_slot_good-good_of g laws p c path configured tool name activated bootname
        ∙ simp
            (
              read-activated (ok_var name) ∙ primary_env-ok name order _,
              read-activated (try_var name) ∙ primary_env-try name order _,
            )
            (ap (λ b. (ok b, activated)) (verdict-flag g laws p c path configured tool true))

    get_primary-activated : grub_get_primary g p c activated ≡ (ok slot, activated)
    get_primary-activated =
        get_primary_first g p c name order (other_bootnames slot c.slots) slot activated o
          (get-activated order_var (omega arith)
            (read-activated order_var ∙ primary_env-order name order _))
          (EndsGraphic-ne-nil order (join-EndsGraphic name _ order_BootNames))
          (strsplit-order g laws name (other_bootnames slot c.slots) order_BootNames) good-activated

  -- grub_set_primary succeeds, and grub_get_primary then returns the slot that was made primary.
  -- The slot has to be the only one of the table with its boot name, and every boot name of the
  -- table has to be free of white space and `=`.
  pub grub_get_primary-grub_set_primary :
      (slot : RaucSlot) (name : Str) (s : p.State)
      → Owns c.slots slot name
      → ((grub_set_primary g p c slot s).0 ≡ ok tt)
        × ((grub_get_primary g p c (grub_set_primary g p c slot s).1).0 ≡ ok slot)
  grub_get_primary-grub_set_primary slot name s o = (
    ap (λ r. r.0) (set_primary_lem slot name s o),
    ap (λ r. (grub_get_primary g p c r.1).0) (set_primary_lem slot name s o)
        ∙ ap (λ r. r.0) (get_primary-activated slot name s o),
  )
