-- ===== src/Boot/Uboot.antt =====
-- The U-Boot backend: the variables BOOT_ORDER and BOOT_<bootname>_LEFT, read by fw_printenv and
-- written by fw_setenv.
pub mod Tool
pub mod State
pub mod Primary
use docker_yocto_kirkstone_n.Prelude.{
  ℕ, zero, suc, ◌+◌, ◌-◌, ◌≡◌, Bool, true, false, not, ◌&&◌, List, [], ◌∷◌, ◌++◌, Option, none,
  some, Str, codes, str_eq, opt_eq, join, keep, length, ltb, ◌==◌, if◌then◌else◌,
}
use docker_yocto_kirkstone_n.Prelude.Digits.{print_hex}
use docker_yocto_kirkstone_n.Exec.{
  Result, ok, err, Exec, pure, raise, or_else, catch, ◌>>=◌, ◌>>◌, bootchooser_parse_failed,
  aborted,
}
use docker_yocto_kirkstone_n.Process.{Processes, communicate, wait_check}
use docker_yocto_kirkstone_n.Glib.{Glib, space}
use docker_yocto_kirkstone_n.Slot.{RaucSlot}
use docker_yocto_kirkstone_n.Context.{RaucConfig}
use docker_yocto_kirkstone_n.Boot.Names.{
  GString, or_null, or_empty, is_listed, spaced, bootchooser_order_primary,
}

abbrev pub printenv_argv : Str → List Str
printenv_argv key = codes "fw_printenv" ∷ key ∷ []

abbrev pub setenv_argv : Str → Str → List Str
setenv_argv key value = codes "fw_setenv" ∷ key ∷ value ∷ []

-- The text behind the first `n` bytes; `none` if there are fewer.
unfoldable pub behind : ℕ → Str → Option Str
behind zero s = some s
behind (suc n) [] = none
behind (suc n) (c ∷ s) = behind n s

abbrev pub left_var : Str → Str
left_var name = codes "BOOT_" ++ (name ++ codes "_LEFT")

-- The configured number of attempts, or the default where none is configured.
abbrev pub attempts_or : ℕ → ℕ → ℕ
attempts_or default attempts = if attempts == 0 then default else attempts

-- A NULL boot name is no part of the order.
abbrev pub names_slot : List Str → Option Str → Bool
names_slot bootnames none = false
names_slot bootnames (some name) = is_listed bootnames name

-- The parts of the boot order that stay: neither the slot's own name nor empty.
abbrev pub is_other : Option Str → Str → Bool
is_other bootname b = not (opt_eq (some b) bootname) && not (str_eq b [])

-- g_strjoinv(" ", …)
unfoldable pub others_of : Option Str → List Str → List Str
unfolding keep str_eq
others_of bootname bootnames = keep (is_other bootname) bootnames

module _ (g : Glib) (p : Processes) (c : RaucConfig) where
  open p use {State}

  -- The output is `<key>=<value>`; one that is shorter than `<key>=` would be read past its end.
  unfoldable pub uboot_env_get : Str → Exec State GString
  uboot_env_get key = do
    out ← communicate p (printenv_argv key)
    value ← or_else (behind (length key + 1) out) aborted
    pure (record { str = g.strchomp value; len = length value })

  unfoldable pub uboot_env_set : Str → Str → Exec State (Unit {0})
  uboot_env_set key value = wait_check p (setenv_argv key value)

  -- `BOOT_<bootname>_LEFT` is read in base 16.
  unfoldable pub uboot_attempts_left : Str → Exec State ℕ
  uboot_attempts_left name = do
    attempts ← uboot_env_get (left_var name)
    pure (g.strtoull attempts.str 16)

  unfoldable pub uboot_left_positive : RaucSlot → Exec State Bool
  uboot_left_positive slot = do
    left ← uboot_attempts_left (or_null slot.bootname)
    pure (ltb 0 left)

  unfoldable pub uboot_get_state : RaucSlot → Exec State Bool
  uboot_get_state slot = do
    order ← uboot_env_get (codes "BOOT_ORDER")
    if names_slot (g.strsplit order.str space) slot.bootname
        then uboot_left_positive slot
        else pure false

  -- The part behind the label `set_left`.
  unfoldable pub uboot_set_left : RaucSlot → Bool → Exec State (Unit {0})
  uboot_set_left slot good =
      uboot_env_set (left_var (or_null slot.bootname))
        (print_hex (if good then attempts_or 3 c.boot_default_attempts else 0))

  unfoldable pub uboot_set_state : RaucSlot → Bool → Exec State (Unit {0})
  uboot_set_state slot true = uboot_set_left slot true
  uboot_set_state slot false =
      catch (uboot_env_get (codes "BOOT_ORDER"))
        (λ order_current. do
          uboot_env_set (codes "BOOT_ORDER")
              (join (others_of slot.bootname (g.strsplit order_current.str space)) space)
          uboot_set_left slot false)
        (λ e. uboot_set_left slot false)

  -- The loop over the slots for one name of the order: the first slot of that name with attempts
  -- left.
  unfoldable pub uboot_match : Str → List RaucSlot → Exec State (Option RaucSlot)
  uboot_match name [] = pure none
  uboot_match name (s ∷ slots) = elim (opt_eq (some name) s.bootname) [
    | false ↦ uboot_match name slots
    | true ↦ do
      left ← uboot_attempts_left name
      if ltb 0 left then pure (some s) else uboot_match name slots
  ]

  unfoldable pub uboot_scan : List Str → Exec State (Option RaucSlot)
  uboot_scan [] = pure none
  uboot_scan (name ∷ bootnames) = do
    found ← uboot_match name c.slots
    elim found [ some s ↦ pure (some s) | none ↦ uboot_scan bootnames ]

  unfoldable pub uboot_get_primary : Exec State RaucSlot
  uboot_get_primary = do
    order ← uboot_env_get (codes "BOOT_ORDER")
    primary ← uboot_scan (g.strsplit order.str space)
    or_else primary bootchooser_parse_failed

  -- The slot's name, then the other parts of the current order, each behind a space.
  abbrev pub uboot_order : RaucSlot → Str → Str
  uboot_order slot current =
      or_empty slot.bootname ++ spaced (others_of slot.bootname (g.strsplit current space))

  unfoldable pub uboot_set_primary_order : RaucSlot → Str → Exec State (Unit {0})
  uboot_set_primary_order slot current = do
    uboot_env_set (left_var (or_null slot.bootname))
        (print_hex (attempts_or 3 c.boot_attempts_primary))
    uboot_env_set (codes "BOOT_ORDER") (uboot_order slot current)

  unfoldable pub uboot_set_primary : RaucSlot → Exec State (Unit {0})
  uboot_set_primary slot =
      catch (uboot_env_get (codes "BOOT_ORDER")) (λ order. uboot_set_primary_order slot order.str)
        (λ e. uboot_set_primary_order slot (bootchooser_order_primary c.slots slot))
