-- ===== src/Boot/Grub.antt =====
-- The GRUB backend: the variables ORDER, <bootname>_OK and <bootname>_TRY of the environment block,
-- read and written by grub-editenv.
pub mod Tool
pub mod Sound
pub mod Bad
pub mod Primary
pub mod State
pub mod Vars
use docker_yocto_kirkstone_n.Prelude.{
  ℕ, ◌≡◌, Bool, true, false, ◌&&◌, ◌||◌, not, ltb, List, [], ◌∷◌, ◌++◌, Option, none, some, Str,
  codes, str_eq, opt_eq, strip_prefix, length, ◌==◌, if◌then◌else◌,
}
use docker_yocto_kirkstone_n.Exec.{
  Result, ok, err, Exec, pure, raise, lift, or_else, ◌>>=◌, ◌>>◌, bootchooser_parse_failed,
  unset_error, aborted,
}
use docker_yocto_kirkstone_n.Process.{Processes, communicate, wait_check}
use docker_yocto_kirkstone_n.Glib.{Glib, newline, space}
use docker_yocto_kirkstone_n.Slot.{RaucSlot}
use docker_yocto_kirkstone_n.Context.{RaucConfig}
use docker_yocto_kirkstone_n.Boot.Names.{
  GString, or_null, or_empty, is_listed, bootchooser_order_primary,
}

abbrev pub optional_arg : Option Str → List Str → List Str
optional_arg none rest = rest
optional_arg (some a) rest = a ∷ rest

abbrev pub list_argv : Option Str → List Str
list_argv path = codes "grub-editenv" ∷ optional_arg path (codes "list" ∷ [])

abbrev pub set_argv : Str → List Str → List Str
set_argv path pairs = codes "grub-editenv" ∷ path ∷ codes "set" ∷ pairs

-- The value in the first line that begins with the prefix `<key>=`.
unfoldable pub find_variable : Str → List Str → Option Str
unfolding strip_prefix
find_variable prefix [] = none
find_variable prefix (line ∷ lines) = elim (strip_prefix prefix line) [
  | some value ↦ some value
  | none ↦ find_variable prefix lines
]

module _ (g : Glib) where
  -- The value with the white space at its end cut off, and its length before that.
  abbrev pub chomped : Option Str → Result GString
  chomped none = err bootchooser_parse_failed
  chomped (some v) = ok (record { str = g.strchomp v; len = length v })

abbrev pub state_pairs : Str → Bool → List Str
state_pairs name true = (name ++ codes "_OK=1") ∷ (name ++ codes "_TRY=0") ∷ []
state_pairs name false = (name ++ codes "_OK=0") ∷ (name ++ codes "_TRY=0") ∷ []

module _ (g : Glib) (p : Processes) (c : RaucConfig) where
  open p use {State}

  unfoldable pub grub_env_get : Str → Exec State GString
  grub_env_get key = do
    out ← communicate p (list_argv c.grubenv_path)
    lift (chomped g (find_variable (key ++ codes "=") (g.strsplit out newline)))

  unfoldable pub grub_env_set : List Str → Exec State (Unit {0})
  grub_env_set pairs = do path ← or_else c.grubenv_path aborted; wait_check p (set_argv path pairs)

  -- The test of grub_get_state: `<bootname>_OK` is 1 and `<bootname>_TRY` is 0.
  unfoldable pub grub_slot_good : Str → Exec State Bool
  grub_slot_good name = do
    slot_ok ← grub_env_get (name ++ codes "_OK")
    slot_try ← grub_env_get (name ++ codes "_TRY")
    pure ((g.strtoull slot_ok.str 0) == 1 && (g.strtoull slot_try.str 0) == 0)

  unfoldable pub grub_get_state : RaucSlot → Exec State Bool
  grub_get_state slot = do
    name ← or_else slot.bootname unset_error
    order ← grub_env_get (codes "ORDER")
    if is_listed (g.strsplit order.str space) name then grub_slot_good name else pure false

  unfoldable pub grub_set_state : RaucSlot → Bool → Exec State (Unit {0})
  grub_set_state slot good = do
    name ← or_else slot.bootname unset_error
    grub_env_set (state_pairs name good)

  -- The test of grub_get_primary, which goes on where `<bootname>_OK` is not 1 or `<bootname>_TRY` is
  -- above 0.
  unfoldable pub grub_slot_bootable : Str → Exec State Bool
  grub_slot_bootable name = do
    slot_ok ← grub_env_get (name ++ codes "_OK")
    slot_try ← grub_env_get (name ++ codes "_TRY")
    pure (not (not ((g.strtoull slot_ok.str 0) == 1) || ltb 0 (g.strtoull slot_try.str 0)))

  -- The loop over the slots for one name of the order: the first slot of that name that is good.
  unfoldable pub grub_match : Str → List RaucSlot → Exec State (Option RaucSlot)
  grub_match name [] = pure none
  grub_match name (s ∷ slots) = elim (opt_eq (some name) s.bootname) [
    | false ↦ grub_match name slots
    | true ↦ do
      good ← grub_slot_bootable name
      if good then pure (some s) else grub_match name slots
  ]

  -- The loop over the names of the order.
  unfoldable pub grub_scan : List Str → Exec State (Option RaucSlot)
  grub_scan [] = pure none
  grub_scan (name ∷ bootnames) = do
    found ← grub_match name c.slots
    elim found [ some s ↦ pure (some s) | none ↦ grub_scan bootnames ]

  unfoldable pub grub_get_primary : Exec State RaucSlot
  grub_get_primary = do
    order ← grub_env_get (codes "ORDER")
    if order.len == 0 then raise bootchooser_parse_failed else do
      primary ← grub_scan (g.strsplit order.str space)
      or_else primary bootchooser_parse_failed

  unfoldable pub grub_set_primary : RaucSlot → Exec State (Unit {0})
  grub_set_primary slot = grub_env_set (
      (or_null slot.bootname ++ codes "_OK=1")
      ∷ (or_null slot.bootname ++ codes "_TRY=0")
      ∷ (codes "ORDER=" ++ bootchooser_order_primary c.slots slot)
      ∷ [])
