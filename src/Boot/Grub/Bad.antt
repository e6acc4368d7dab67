-- ===== src/Boot/Grub/Bad.antt =====
-- A slot that was marked bad with GRUB is not the primary one.
use docker_yocto_kirkstone_n.Prelude.{
  ◌≡◌, ◌≢◌, sym, ap, ◌∙◌, Bool, true, false, ◌&&◌, Option, none, some, Str, Option-cases, inl, inr,
}
use docker_yocto_kirkstone_n.Exec.{ok, err, bootchooser_parse_failed}
use docker_yocto_kirkstone_n.Process.{Processes}
use docker_yocto_kirkstone_n.Glib.{Glib, GlibLaws, space}
use docker_yocto_kirkstone_n.Slot.{RaucSlot}
use docker_yocto_kirkstone_n.Context.{RaucConfig}
use docker_yocto_kirkstone_n.Boot.Env.{lookup_env}
use docker_yocto_kirkstone_n.Boot.Names.{is_listed}
use docker_yocto_kirkstone_n.Boot.Hygiene.{BootName, BootNames}
use docker_yocto_kirkstone_n.Boot.Grub.{grub_get_primary, grub_get_state, grub_set_state}
use docker_yocto_kirkstone_n.Boot.Grub.Tool.{GrubEditenv}
use docker_yocto_kirkstone_n.Boot.Grub.Vars.{order_var}
use docker_yocto_kirkstone_n.Boot.Grub.State.{
  state_of, grub_get_state-state_of, grub_set_state_lem, grub_get_state-grub_set_state,
  read_order-marked,
}
use docker_yocto_kirkstone_n.Boot.Grub.Sound.{grub_get_primary_sound}

good_and_bad : (b : Bool) → ok true ≡ ok (b && false) → ⊥
good_and_bad true h = cc
good_and_bad false h = cc

unordered :
    (g : Glib) (name : Str) (order slot_ok slot_try : Option Str)
    → order ≡ none
    → state_of g name order slot_ok slot_try ≡ err bootchooser_parse_failed
unordered g name order slot_ok slot_try e = rw e

good_and_error : ok true ≡ err bootchooser_parse_failed → ⊥
good_and_error h = cc

module _ (g : Glib) (laws : GlibLaws g) (p : Processes) (c : RaucConfig) (path : Str)
    (configured : c.grubenv_path ≡ some path) (tool : GrubEditenv p path) (slot : RaucSlot)
    (name : Str) (named : slot.bootname ≡ some name) (h : BootName name) where
  abbrev bad : p.State → p.State
  bad s = (grub_set_state g p c slot false s).1

  -- A slot of the name is not good then.
  not_good :
      (other : RaucSlot) (s : p.State)
      → other.bootname ≡ some name
      → grub_get_state g p c other (bad s) ≡ (ok true, bad s)
      → ⊥
  not_good other s same good = elim (Option-cases (lookup_env order_var (tool.env s))) [
    | inr (order, listed) ↦ good_and_bad (is_listed (g.strsplit (g.strchomp order) space) name) (
        sym (ap (λ r. r.0) good)
        ∙ ap (λ r. (grub_get_state g p c other r.1).0) one_mark
        ∙ (grub_get_state-grub_set_state g laws p c path configured tool other name order false s
            same h listed).1)
    | inl unset ↦ good_and_error (
        sym (ap (λ r. r.0) good)
        ∙ ap (λ r. (grub_get_state g p c other r.1).0)
            (grub_set_state_lem g laws p c path configured tool slot name false s named h)
        ∙ ap (λ r. r.0)
            (grub_get_state-state_of g laws p c path configured tool other name _ same h)
        ∙ unordered g name _ _ _
            (read_order-marked g laws p c path configured tool name false s h ∙ unset))
  ]
    where
      one_mark : grub_set_state g p c slot false s ≡ grub_set_state g p c other false s
      one_mark =
          grub_set_state_lem g laws p c path configured tool slot name false s named h
          ∙ sym (grub_set_state_lem g laws p c path configured tool other name false s same h)

  -- After a slot is marked bad, grub_get_primary returns no slot with its boot name. Every boot
  -- name of the table has to be free of white space and `=`.
  pub grub_get_primary-grub_set_state_bad :
      (primary : RaucSlot) (s s' : p.State)
      → BootNames c.slots
      → grub_get_primary g p c (grub_set_state g p c slot false s).1 ≡ (ok primary, s')
      → primary.bootname ≢ some name
  grub_get_primary-grub_set_state_bad primary s s' names returned same =
      not_good primary s same
        (grub_get_primary_sound g laws p c path configured tool names primary (bad s) s' returned).1
