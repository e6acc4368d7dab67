-- ===== src/Boot/Custom.antt =====
-- The custom backend: a program of the integrator that is called with `get-primary`, `set-primary`,
-- `get-state` and `set-state`.
pub mod Contract
use docker_yocto_kirkstone_n.Prelude.{
  ◌≡◌, Bool, true, false, List, [], ◌∷◌, Option, none, some, Str, codes, str_eq, opt_eq, find_first,
  if◌then◌else◌,
}
use docker_yocto_kirkstone_n.Exec.{
  Result, ok, err, Exec, pure, raise, lift, or_else, ◌>>=◌, ◌>>◌, bootchooser_parse_failed,
  bootchooser_failed, unset_error,
}
use docker_yocto_kirkstone_n.Process.{Processes, communicate, wait_check}
use docker_yocto_kirkstone_n.Glib.{Glib}
use docker_yocto_kirkstone_n.Slot.{RaucSlot}
use docker_yocto_kirkstone_n.Context.{RaucConfig}

abbrev pub more_arg : Option Str → List Str
more_arg none = []
more_arg (some a) = a ∷ []

abbrev pub parsed_state : Str → Result Bool
parsed_state s =
    if str_eq s (codes "good")
    then ok true
    else if str_eq s (codes "bad")
    then ok false
    else err bootchooser_failed

abbrev pub state_arg : Bool → Str
state_arg good = if good then codes "good" else codes "bad"

module _ (g : Glib) (p : Processes) (c : RaucConfig) where
  open p use {State}

  -- g_subprocess_new() returns NULL without an error where there is no program name.
  unfoldable pub custom_backend_get : Str → Option Str → Exec State Str
  custom_backend_get cmd bootname = do
    backend_name ← or_else c.custom_bootloader_backend unset_error
    out ← communicate p (backend_name ∷ cmd ∷ more_arg bootname)
    pure (g.strstrip out)

  -- A NULL boot name fails without an error set.
  unfoldable pub custom_backend_set : Str → Option Str → Option Str → Exec State (Unit {0})
  custom_backend_set cmd bootname arg = do
    name ← or_else bootname unset_error
    backend_name ← or_else c.custom_bootloader_backend unset_error
    wait_check p (backend_name ∷ cmd ∷ name ∷ more_arg arg)

  unfoldable pub custom_set_state : RaucSlot → Bool → Exec State (Unit {0})
  custom_set_state slot good =
      custom_backend_set (codes "set-state") slot.bootname (some (state_arg good))

  unfoldable pub custom_get_primary : Exec State RaucSlot
  custom_get_primary = do
    ret_str ← custom_backend_get (codes "get-primary") none
    or_else (find_first (λ s. opt_eq (some ret_str) s.bootname) c.slots) bootchooser_parse_failed

  unfoldable pub custom_get_state : RaucSlot → Exec State Bool
  custom_get_state slot = do
    ret_str ← custom_backend_get (codes "get-state") slot.bootname
    lift (parsed_state ret_str)

  unfoldable pub custom_set_primary : RaucSlot → Exec State (Unit {0})
  custom_set_primary slot = custom_backend_set (codes "set-primary") slot.bootname none
