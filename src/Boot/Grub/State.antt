-- ===== src/Boot/Grub/State.antt =====
-- grub_set_state and grub_get_state: marking a slot is read back, and touches no other slot.
use docker_yocto_kirkstone_n.Prelude.{
  ℕ, ◌++◌, ◌||◌, not, ltb, ◌≡◌, ◌≢◌, refl, sym, ap, ◌∙◌, Bool, true, false, ◌&&◌, ◌==◌, Option,
  none, some, Str, if◌then◌else◌, arith, inl, inr, Bool-cases, codes,
}
use docker_yocto_kirkstone_n.Exec.{Result, ok, err, pure, ◌>>=◌, bootchooser_parse_failed}
use docker_yocto_kirkstone_n.Process.{Processes}
use docker_yocto_kirkstone_n.Glib.{Glib, GlibLaws, space}
use docker_yocto_kirkstone_n.Slot.{RaucSlot}
use docker_yocto_kirkstone_n.Context.{RaucConfig}
use docker_yocto_kirkstone_n.Boot.Names.{is_listed}
use docker_yocto_kirkstone_n.Boot.Env.{lookup_env, assigned}
use docker_yocto_kirkstone_n.Boot.Hygiene.{BootName}
use docker_yocto_kirkstone_n.Boot.Grub.{
  chomped, grub_env_get, grub_slot_good, grub_slot_bootable, grub_get_state, grub_set_state,
}
use docker_yocto_kirkstone_n.Boot.Grub.Tool.{GrubEditenv, grub_env_get_lem, grub_env_set_lem, after}
use docker_yocto_kirkstone_n.Boot.Grub.Vars.{
  ok_var, try_var, order_var, flag, state_env, state_pairs-state_env, ok_var-Lacks, try_var-Lacks,
  state_env-Clean, state_env-ok, state_env-try, state_env-order, state_env-ok_ne, state_env-try_ne,
  strtoull_flag,
}

-- The verdict that two variables give.
abbrev pub verdict : Glib → Str → Str → Bool
verdict g slot_ok slot_try =
    (g.strtoull (g.strchomp slot_ok) 0) == 1 && (g.strtoull (g.strchomp slot_try) 0) == 0

-- What grub_get_state returns, read off the variables ORDER, `<name>_OK` and `<name>_TRY`.
abbrev pub good_of : Glib → Option Str → Option Str → Result Bool
good_of g none slot_try = err bootchooser_parse_failed
good_of g (some o) none = err bootchooser_parse_failed
good_of g (some o) (some t) = ok (verdict g o t)

abbrev pub state_of : Glib → Str → Option Str → Option Str → Option Str → Result Bool
state_of g name none slot_ok slot_try = err bootchooser_parse_failed
state_of g name (some order) slot_ok slot_try =
    if is_listed (g.strsplit (g.strchomp order) space) name
    then good_of g slot_ok slot_try
    else ok false

-- The two tests of OK and TRY agree.
tests_agree : (a b : ℕ) → not (not (a == 1) || ltb 0 b) ≡ (a == 1 && b == 0)
tests_agree a b = ground arith

pub grub_slot_bootable_eq :
    (g : Glib) (p : Processes) (c : RaucConfig) (name : Str) (s : p.State)
    → grub_slot_bootable g p c name s ≡ grub_slot_good g p c name s
unfolding grub_slot_bootable grub_slot_good
grub_slot_bootable_eq g p c name s =
    ap
      (λ (test : ℕ → ℕ → Bool).
        (grub_env_get g p c (name ++ codes "_OK") >>= λ slot_ok.
        grub_env_get g p c (name ++ codes "_TRY") >>= λ slot_try.
        pure (test (g.strtoull slot_ok.str 0) (g.strtoull slot_try.str 0)))
          s)
      (λ i a b. tests_agree a b i)

module _ (g : Glib) (laws : GlibLaws g) (p : Processes) (c : RaucConfig) (path : Str)
    (configured : c.grubenv_path ≡ some path) (tool : GrubEditenv p path) where
  abbrev read : Str → p.State → Option Str
  read key s = lookup_env key (tool.env s)

  slot_good_of :
      (name : Str) (s : p.State) (o t : Option Str)
      → grub_env_get g p c (ok_var name) s ≡ (chomped g o, s)
      → grub_env_get g p c (try_var name) s ≡ (chomped g t, s)
      → grub_slot_good g p c name s ≡ (good_of g o t, s)
  unfolding grub_slot_good
  slot_good_of name s none t e f = rw e
  slot_good_of name s (some o) none e f = rw (e, f)
  slot_good_of name s (some o) (some t) e f = rw (e, f)

  pub grub_slot_good-good_of :
      (name : Str) (s : p.State)
      → BootName name
      → grub_slot_good g p c name s ≡ (good_of g (read (ok_var name) s) (read (try_var name) s), s)
  grub_slot_good-good_of name s h =
      slot_good_of name s _ _
        (grub_env_get_lem g laws p c path configured tool (ok_var name) s (ok_var-Lacks name h))
        (grub_env_get_lem g laws p c path configured tool (try_var name) s (try_var-Lacks name h))

  get_state_of :
      (slot : RaucSlot) (name : Str) (s : p.State) (order o t : Option Str)
      → slot.bootname ≡ some name
      → grub_env_get g p c order_var s ≡ (chomped g order, s)
      → grub_slot_good g p c name s ≡ (good_of g o t, s)
      → grub_get_state g p c slot s ≡ (state_of g name order o t, s)
  unfolding grub_get_state
  get_state_of slot name s none o t named e f = simp named (rw e)
  get_state_of slot name s (some order) o t named e f = simp named (
      rw e (elim (Bool-cases (is_listed (g.strsplit (g.strchomp order) space) name)) [
        | inl h ↦ rw h (rw f)
        | inr h ↦ rw h
      ]))

  -- For a slot whose boot name is free of white space and `=`, grub_get_state reads the three
  -- variables and changes nothing: a slot that is not listed in ORDER is bad, a missing variable
  -- is an error, and otherwise `<name>_OK` must be 1 and `<name>_TRY` 0.
  pub grub_get_state-state_of :
      (slot : RaucSlot) (name : Str) (s : p.State)
      → slot.bootname ≡ some name
      → BootName name
      → grub_get_state g p c slot s
        ≡ (state_of g name (read order_var s) (read (ok_var name) s) (read (try_var name) s), s)
  grub_get_state-state_of slot name s named h =
      get_state_of slot name s _ _ _ named
        (grub_env_get_lem g laws p c path configured tool order_var s (omega arith))
        (grub_slot_good-good_of name s h)

  pub grub_set_state_lem :
      (slot : RaucSlot) (name : Str) (good : Bool) (s : p.State)
      → slot.bootname ≡ some name
      → BootName name
      → grub_set_state g p c slot good s
        ≡ (ok tt, after g laws p c path configured tool (state_env name good) s)
  unfolding grub_set_state
  grub_set_state_lem slot name good s named h =
      simp (named, state_pairs-state_env name good)
        (grub_env_set_lem g laws p c path configured tool (state_env name good) s
          (state_env-Clean name good h))

  pub verdict-flag : (good : Bool) → verdict g (flag good) (codes "0") ≡ good
  verdict-flag good =
      simp (strtoull_flag g laws good, strtoull_flag g laws false) (one_or_zero good)
    where
      one_or_zero : (b : Bool) → ((if b then 1 else 0) == 1 && true) ≡ b
      one_or_zero true = refl
      one_or_zero false = refl

  state_of_flags :
      (name order : Str) (good : Bool)
      → state_of g name (some order) (some (flag good)) (some (codes "0"))
        ≡ ok (is_listed (g.strsplit (g.strchomp order) space) name && good)
  state_of_flags name order good =
      elim (Bool-cases (is_listed (g.strsplit (g.strchomp order) space) name)) [
        | inl h ↦ rw h (ap ok (verdict-flag good))
        | inr h ↦ rw h
      ]

  module _ (name : Str) (good : Bool) (s : p.State) (h : BootName name) where
    abbrev marked : p.State
    marked = after g laws p c path configured tool (state_env name good) s

    read-marked : (key : Str) → read key marked ≡ assigned (state_env name good) key (read key s)
    read-marked key = tool.set_env (state_env name good) s key (state_env-Clean name good h)

    read_ok-marked : read (ok_var name) marked ≡ some (flag good)
    read_ok-marked = read-marked _ ∙ state_env-ok name good _

    read_try-marked : read (try_var name) marked ≡ some (codes "0")
    read_try-marked = read-marked _ ∙ state_env-try name good _

    pub read_order-marked : read order_var marked ≡ read order_var s
    read_order-marked = read-marked _ ∙ state_env-order name good _

    marked_state :
        (slot : RaucSlot) (order : Str)
        → slot.bootname ≡ some name
        → read order_var s ≡ some order
        → grub_get_state g p c slot marked
          ≡ (ok (is_listed (g.strsplit (g.strchomp order) space) name && good), marked)
    marked_state slot order named listed =
        grub_get_state-state_of slot name marked named h
        ∙ simp (read_order-marked, listed, read_ok-marked, read_try-marked)
            (ap (λ r. (r, marked)) (state_of_flags name order good))

    module _ (slot : RaucSlot) (other : Str) (named : slot.bootname ≡ some other)
        (other_name : BootName other) (differ : name ≢ other) where
      other_state : grub_get_state g p c slot marked ≡ (
        state_of g other (read order_var s) (read (ok_var other) s) (read (try_var other) s),
        marked,
      )
      other_state =
          grub_get_state-state_of slot other marked named other_name
          ∙ simp (
            read_order-marked,
            read-marked (ok_var other) ∙ state_env-ok_ne name good _ other differ,
            read-marked (try_var other) ∙ state_env-try_ne name good _ other differ,
          )

  -- After a slot is marked good or bad, grub_get_state returns what it was marked as if the slot
  -- is listed in ORDER, and bad otherwise. ORDER has to be set, and the boot name to be free of
  -- white space and `=`.
  pub grub_get_state-grub_set_state :
      (slot : RaucSlot) (name order : Str) (good : Bool) (s : p.State)
      → slot.bootname ≡ some name
      → BootName name
      → read order_var s ≡ some order
      → ((grub_set_state g p c slot good s).0 ≡ ok tt)
        × ((grub_get_state g p c slot (grub_set_state g p c slot good s).1).0
            ≡ ok (is_listed (g.strsplit (g.strchomp order) space) name && good))
  grub_get_state-grub_set_state slot name order good s named h listed =
      let set = grub_set_state_lem slot name good s named h in
      (
        ap (λ r. r.0) set,
        ap (λ r. (grub_get_state g p c slot r.1).0) set
            ∙ ap (λ r. r.0) (marked_state name good s h slot order named listed),
      )

  -- Marking one slot leaves what grub_get_state returns for a slot of another boot name. Both
  -- names have to be free of white space and `=`.
  pub grub_get_state-grub_set_state_ne :
      (slot other_slot : RaucSlot) (name other : Str) (good : Bool) (s : p.State)
      → slot.bootname ≡ some name
      → other_slot.bootname ≡ some other
      → BootName name
      → BootName other
      → name ≢ other
      → (grub_get_state g p c other_slot (grub_set_state g p c slot good s).1).0
        ≡ (grub_get_state g p c other_slot s).0
  grub_get_state-grub_set_state_ne slot other_slot name other good s named other_named h k differ =
      ap (λ r. (grub_get_state g p c other_slot r.1).0)
        (grub_set_state_lem slot name good s named h)
      ∙ ap (λ r. r.0) (other_state name good s h other_slot other other_named k differ)
      ∙ sym (ap (λ r. r.0) (grub_get_state-state_of other_slot other s other_named k))
