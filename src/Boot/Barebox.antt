-- ===== src/Boot/Barebox.antt =====
-- The barebox backend: the variables bootstate.<bootname>.priority and .remaining_attempts, read
-- and written by barebox-state.
pub mod Tool
pub mod Highest
pub mod State
use docker_yocto_kirkstone_n.Prelude.{
  ℕ, ◌+◌, ◌%◌, ◌^◌, ◌≡◌, Bool, true, false, not, ◌&&◌, List, [], ◌∷◌, ◌++◌, Option, none, some, Str,
  codes, ltb, ◌==◌, if◌then◌else◌,
}
use docker_yocto_kirkstone_n.Prelude.Digits.{print_dec}
use docker_yocto_kirkstone_n.Exec.{
  Result, ok, err, Exec, pure, or_else, ◌>>=◌, ◌>>◌, bootchooser_parse_failed, unset_error,
  spawn_failed, communicate_failed,
}
use docker_yocto_kirkstone_n.Process.{
  Processes, Exit, Outcome, not_started, broken, ended, exit_status, wait_check,
}
use docker_yocto_kirkstone_n.Glib.{Glib, Parsed}
use docker_yocto_kirkstone_n.Slot.{RaucSlot, same}
use docker_yocto_kirkstone_n.Context.{RaucConfig}
use docker_yocto_kirkstone_n.Boot.Names.{or_null}

pub record BareboxSlotState : Type 0 where
  pub prio : ℕ
  pub attempts : ℕ

abbrev pub priority_var : Str → Str
priority_var name = codes "bootstate." ++ (name ++ codes ".priority")

abbrev pub attempts_var : Str → Str
attempts_var name = codes "bootstate." ++ (name ++ codes ".remaining_attempts")

abbrev pub option_args : Str → Option Str → List Str → List Str
option_args flag none rest = rest
option_args flag (some value) rest = flag ∷ value ∷ rest

abbrev pub flag_each : Str → List Str → List Str → List Str
flag_each flag [] rest = rest
flag_each flag (a ∷ values) rest = flag ∷ a ∷ flag_each flag values rest

abbrev pub barebox_argv : RaucConfig → Str → List Str → List Str
barebox_argv c flag values =
    codes "barebox-state"
    ∷ option_args (codes "-n") c.system_bb_statename
        (flag_each flag values (option_args (codes "-i") c.system_bb_dtbpath []))

-- `<variable>=%i`
abbrev pub number_pair : Str → ℕ → Str
number_pair name n = name ++ (codes "=" ++ print_dec n)

-- One round of the loop over the lines.
abbrev pub parsed_value : Parsed → Result ℕ
parsed_value r =
    if r.value == 0 && r.at_start
    then err bootchooser_parse_failed
    else if r.overflow
    then err bootchooser_parse_failed
    else ok r.value

abbrev pub two_values : Result ℕ → Result ℕ → Exit → Result BareboxSlotState
two_values (err e) b exit = err e
two_values (ok a) (err e) exit = err e
two_values (ok a) (ok b) exit =
    exit_status exit (record { prio = a % 2 ^ 32; attempts = b % 2 ^ 32 })

module _ (g : Glib) where
  -- A line that is missing is an error before the second is looked at.
  abbrev pub state_lines : List Str → Exit → Result BareboxSlotState
  state_lines [] exit = err bootchooser_parse_failed
  state_lines (a ∷ []) exit =
      two_values (parsed_value (g.strtoull_checked a 10)) (err bootchooser_parse_failed) exit
  state_lines (a ∷ b ∷ more) exit =
      two_values (parsed_value (g.strtoull_checked a 10)) (parsed_value (g.strtoull_checked b 10))
        exit

  abbrev pub read_state : Outcome → Result BareboxSlotState
  read_state not_started = err spawn_failed
  read_state broken = err communicate_failed
  read_state (ended out exit) = state_lines (g.data_lines out) exit

-- BAREBOX_STATE_DEFAULT_ATTEMPTS and BAREBOX_STATE_ATTEMPTS_PRIMARY are 3.
abbrev pub attempts_or : ℕ → ℕ
attempts_or attempts = if attempts == 0 then 3 else attempts

-- BAREBOX_STATE_PRIORITY_PRIMARY is 20, BAREBOX_STATE_DEFAULT_PRIORITY 10.
abbrev pub next_priority : Bool → ℕ → ℕ
next_priority is_primary old = if is_primary then 20 else if old == 0 then 0 else 10

abbrev pub set_state_pairs : RaucConfig → Str → Bool → List Str
set_state_pairs c name true =
    number_pair (attempts_var name) (attempts_or c.boot_default_attempts) ∷ []
set_state_pairs c name false =
    number_pair (priority_var name) 0 ∷ number_pair (attempts_var name) 0 ∷ []

module _ (g : Glib) (p : Processes) (c : RaucConfig) where
  open p use {State, run}

  unfoldable pub barebox_state_get : Str → Exec State BareboxSlotState
  barebox_state_get bootname s =
      let argv = barebox_argv c (codes "-g") (priority_var bootname ∷ attempts_var bootname ∷ []) in
      (read_state g (run argv s).0, (run argv s).1)

  unfoldable pub barebox_state_set : List Str → Exec State (Unit {0})
  barebox_state_set pairs = wait_check p (barebox_argv c (codes "-s") pairs)

  unfoldable pub barebox_set_state : RaucSlot → Bool → Exec State (Unit {0})
  barebox_set_state slot good = barebox_state_set (set_state_pairs c (or_null slot.bootname) good)

  unfoldable pub barebox_get_state : RaucSlot → Exec State Bool
  barebox_get_state slot = do
    name ← or_else slot.bootname unset_error
    state ← barebox_state_get name
    pure (ltb 0 state.prio && ltb 0 state.attempts)

  -- The slot of highest priority so far, and that priority.
  abbrev pub higher : RaucSlot → BareboxSlotState → Option RaucSlot × ℕ → Option RaucSlot × ℕ
  higher slot state (primary, top_prio) =
      if state.attempts == 0
      then (primary, top_prio)
      else if ltb top_prio state.prio
      then (some slot, state.prio)
      else (primary, top_prio)

  -- The loop over the slots.
  unfoldable pub barebox_scan : Option RaucSlot × ℕ → List RaucSlot → Exec State (Option RaucSlot)
  barebox_scan best [] = pure best.0
  barebox_scan best (slot ∷ slots) = elim slot.bootname [
    | none ↦ barebox_scan best slots
    | some name ↦ barebox_state_get name >>= λ state. barebox_scan (higher slot state best) slots
  ]

  unfoldable pub barebox_get_primary : Exec State RaucSlot
  barebox_get_primary = do
    primary ← barebox_scan (none, 0) c.slots
    or_else primary bootchooser_parse_failed

  -- The loop over the slots: the new priorities.
  unfoldable pub barebox_priorities : RaucSlot → List RaucSlot → Exec State (List Str)
  barebox_priorities slot [] = pure []
  barebox_priorities slot (s ∷ slots) = elim s.bootname [
    | none ↦ barebox_priorities slot slots
    | some name ↦ do
      bb_state ← barebox_state_get name
      pairs ← barebox_priorities slot slots
      pure (number_pair (priority_var name) (next_priority (same s slot) bb_state.prio) ∷ pairs)
  ]

  unfoldable pub barebox_set_primary : RaucSlot → Exec State (Unit {0})
  barebox_set_primary slot = do
    pairs ← barebox_priorities slot c.slots
    barebox_state_set (
        pairs
        ++ (number_pair (attempts_var (or_null slot.bootname)) (attempts_or c.boot_attempts_primary)
            ∷ []))
