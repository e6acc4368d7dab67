-- ===== src/Boot/Custom/Contract.antt =====
-- What a custom backend has to do, and that the slots read back what was set.
use docker_yocto_kirkstone_n.Prelude.{
  ◌≡◌, refl, sym, ap, ◌∙◌, Bool, true, false, List, [], ◌∷◌, ◌++◌, some, Str, codes, str_eq,
  if◌then◌else◌, arith,
}
use docker_yocto_kirkstone_n.Exec.{ok}
use docker_yocto_kirkstone_n.Process.{Processes, ended, code, communicate, wait_check}
use docker_yocto_kirkstone_n.Glib.{Glib, GlibLaws, newline, Graphic}
use docker_yocto_kirkstone_n.Slot.{RaucSlot}
use docker_yocto_kirkstone_n.Context.{RaucConfig}
use docker_yocto_kirkstone_n.Boot.Owners.{find_owner, Owns}
use docker_yocto_kirkstone_n.Boot.Custom.{
  state_arg, parsed_state, custom_backend_get, custom_backend_set, custom_set_state,
  custom_get_primary, custom_get_state, custom_set_primary,
}

abbrev pub get_primary_argv : Str → List Str
get_primary_argv backend = backend ∷ codes "get-primary" ∷ []

abbrev pub set_primary_argv : Str → Str → List Str
set_primary_argv backend name = backend ∷ codes "set-primary" ∷ name ∷ []

abbrev pub get_state_argv : Str → Str → List Str
get_state_argv backend name = backend ∷ codes "get-state" ∷ name ∷ []

abbrev pub set_state_argv : Str → Str → Bool → List Str
set_state_argv backend name good = backend ∷ codes "set-state" ∷ name ∷ state_arg good ∷ []

-- The interface of a custom backend: it keeps a primary boot name and a state for each boot name,
-- prints a line and exits with 0.
pub record CustomBackend (p : Processes) (backend : Str) : Type 0 where
  pub primary : p.State → Str
  pub status : p.State → Str → Bool
  pub get_primary_run :
      (s : p.State)
      → p.run (get_primary_argv backend) s ≡ (ended (primary s ++ (newline ∷ [])) (code 0), s)
  pub get_state_run :
      (name : Str) (s : p.State)
      → p.run (get_state_argv backend name) s
        ≡ (ended (state_arg (status s name) ++ (newline ∷ [])) (code 0), s)
  pub set_primary_exit :
      (name : Str) (s : p.State) → (p.run (set_primary_argv backend name) s).0 ≡ ended [] (code 0)
  pub set_primary_run :
      (name : Str) (s : p.State) → primary (p.run (set_primary_argv backend name) s).1 ≡ name
  pub set_state_exit :
      (name : Str) (good : Bool) (s : p.State)
      → (p.run (set_state_argv backend name good) s).0 ≡ ended [] (code 0)
  pub set_state_run :
      (name : Str) (good : Bool) (s : p.State) (j : Str)
      → status (p.run (set_state_argv backend name good) s).1 j
        ≡ (if str_eq name j then good else status s j)

state_arg-Graphic : (good : Bool) → Graphic (state_arg good)
state_arg-Graphic true = ground arith
state_arg-Graphic false = ground arith

parsed_state-state_arg : (good : Bool) → parsed_state (state_arg good) ≡ ok good
unfolding str_eq
parsed_state-state_arg true = refl
parsed_state-state_arg false = refl

module _ (g : Glib) (laws : GlibLaws g) (p : Processes) (c : RaucConfig) (backend : Str)
    (configured : c.custom_bootloader_backend ≡ some backend) (tool : CustomBackend p backend) where
  get_primary_of :
      (s : p.State) (slot : RaucSlot) (name : Str)
      → tool.primary s ≡ name
      → Graphic name
      → Owns c.slots slot name
      → custom_get_primary g p c s ≡ (ok slot, s)
  unfolding custom_get_primary custom_backend_get communicate
  get_primary_of s slot name e h o =
      simp configured
        (rw (tool.get_primary_run s, e, laws.strstrip_line name h, find_owner c.slots slot name o))

  set_primary_lem :
      (slot : RaucSlot) (name : Str) (s : p.State)
      → slot.bootname ≡ some name
      → custom_set_primary g p c slot s ≡ (ok tt, (p.run (set_primary_argv backend name) s).1)
  unfolding custom_set_primary custom_backend_set wait_check
  set_primary_lem slot name s named = simp (named, configured) (rw (tool.set_primary_exit name s))

  -- custom_set_primary succeeds, and custom_get_primary then returns the slot, which has to be the
  -- only one of the table with its boot name. The name has no white space.
  pub custom_get_primary-custom_set_primary :
      (slot : RaucSlot) (name : Str) (s : p.State)
      → Owns c.slots slot name
      → Graphic name
      → ((custom_set_primary g p c slot s).0 ≡ ok tt)
        × ((custom_get_primary g p c (custom_set_primary g p c slot s).1).0 ≡ ok slot)
  custom_get_primary-custom_set_primary slot name s o h = (
    ap (λ r. r.0) (set_primary_lem slot name s o.named),
    ap (λ r. (custom_get_primary g p c r.1).0) (set_primary_lem slot name s o.named)
        ∙ ap (λ r. r.0) (get_primary_of _ slot name (tool.set_primary_run name s) h o),
  )

  get_state_lem :
      (slot : RaucSlot) (name : Str) (s : p.State)
      → slot.bootname ≡ some name
      → custom_get_state g p c slot s ≡ (ok (tool.status s name), s)
  unfolding custom_get_state custom_backend_get communicate
  get_state_lem slot name s named =
      simp (named, configured)
        (rw (
          tool.get_state_run name s,
          laws.strstrip_line _ (state_arg-Graphic (tool.status s name)),
          parsed_state-state_arg (tool.status s name),
        ))

  set_state_lem :
      (slot : RaucSlot) (name : Str) (good : Bool) (s : p.State)
      → slot.bootname ≡ some name
      → custom_set_state g p c slot good s ≡ (ok tt, (p.run (set_state_argv backend name good) s).1)
  unfolding custom_set_state custom_backend_set wait_check
  set_state_lem slot name good s named =
      simp (named, configured) (rw (tool.set_state_exit name good s))

  -- custom_set_state succeeds. Afterwards custom_get_state returns the new state for every slot of
  -- the same boot name, and for every other slot with a boot name what it returned before.
  pub custom_get_state-custom_set_state :
      (slot other : RaucSlot) (name j : Str) (good : Bool) (s : p.State)
      → slot.bootname ≡ some name
      → other.bootname ≡ some j
      → ((custom_set_state g p c slot good s).0 ≡ ok tt)
        × ((custom_get_state g p c other (custom_set_state g p c slot good s).1).0
            ≡ (if str_eq name j then ok good else (custom_get_state g p c other s).0))
  custom_get_state-custom_set_state slot other name j good s named named' = (
    ap (λ r. r.0) (set_state_lem slot name good s named),
    ap (λ r. (custom_get_state g p c other r.1).0) (set_state_lem slot name good s named)
        ∙ ap (λ r. r.0) (get_state_lem other j _ named')
        ∙ ap ok (tool.set_state_run name good s j)
        ∙ push_ok (str_eq name j)
        ∙ ap (λ r. if str_eq name j then ok good else r)
            (sym (ap (λ r. r.0) (get_state_lem other j s named'))),
  )
    where
      push_ok :
          (b : Bool)
          → ok (if b then good else tool.status s j) ≡ (if b then ok good else ok (tool.status s j))
      push_ok true = refl
      push_ok false = refl
