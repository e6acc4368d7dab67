-- ===== src/Install/BootStates.antt =====
-- determine_boot_states (kirkstone/local/rauc/src/install.c): the boot state of each slot with a boot name, asked of
-- the boot loader.
use docker_yocto_kirkstone_n.Prelude.{
  ◌≡◌, refl, ap, ◌∙◌, Bool, true, false, ◌||◌, List, [], ◌∷◌, map, Option, none, some, Str, All,
  if◌then◌else◌,
}
use docker_yocto_kirkstone_n.Exec.{
  Error, Result, ok, err, Exec, pure, raise, catch, resume, ◌>>=◌, slot_no_booted, unset_error,
  aborted,
}
use docker_yocto_kirkstone_n.Process.{Processes}
use docker_yocto_kirkstone_n.Glib.{Glib}
use docker_yocto_kirkstone_n.Slot.{RaucSlot}
use docker_yocto_kirkstone_n.Context.{RaucConfig}
use docker_yocto_kirkstone_n.Boot.Efi.Entries.{EfiRegex}
use docker_yocto_kirkstone_n.Boot.Dispatch.{boot_get_state}

-- The message of the error is read, which aborts where no error was set.
abbrev pub is_reported : Error → Bool
is_reported unset_error = false
is_reported aborted = false
is_reported _ = true

abbrev pub set_boot_good : RaucSlot → Bool → RaucSlot
set_boot_good slot good = record slot { boot_good = good }

-- `had_errors`, and the slots.
abbrev pub States : Type 0
States = Bool × List RaucSlot

abbrev pub with_slot : Bool → RaucSlot → States → States
with_slot failed slot (had_errors, slots) = (failed || had_errors, slot ∷ slots)

module _ (g : Glib) (x : EfiRegex) (p : Processes) (c : RaucConfig) where
  open p use {State}

  -- The loop over the slots.
  unfoldable pub boot_states : List RaucSlot → Exec State States
  boot_states [] = pure (false, [])
  boot_states (slot ∷ slots) = elim slot.bootname [
    | none ↦ do rest ← boot_states slots; pure (with_slot false slot rest)
    | some name ↦
        catch (boot_get_state g x p c slot)
          (λ good. do
            rest ← boot_states slots
            pure (with_slot false (set_boot_good slot good) rest))
          (λ e.
            if is_reported e
            then (do rest ← boot_states slots; pure (with_slot true slot rest))
            else raise aborted)
  ]

  abbrev pub finish :
      List RaucSlot → Result States × State → Result (Unit {0}) × (State × List RaucSlot)
  finish before (err e, s) = (err e, (s, before))
  finish before (ok (false, slots), s) = (ok tt, (s, slots))
  finish before (ok (true, slots), s) = (err slot_no_booted, (s, slots))

  -- On the machine and the slots of the configuration.
  unfoldable pub determine_boot_states : Exec (State × List RaucSlot) (Unit {0})
  determine_boot_states (s, slots) = finish slots (boot_states slots s)

  -- The boot loader's answer leaves the machine as it is, and an error has a message.
  abbrev pub Answer : Result Bool × State → State → Type 0
  Answer (ok good, after) s = after ≡ s
  Answer (err e, after) s = (after ≡ s) × (is_reported e ≡ true)

  abbrev pub Answered : Option Str → RaucSlot → State → Type 0
  Answered none slot s = Unit {0}
  Answered (some name) slot s = Answer (boot_get_state g x p c slot s) s

  abbrev pub answer_or : RaucSlot → Result Bool → RaucSlot
  answer_or slot (ok good) = record slot { boot_good = good }
  answer_or slot (err e) = slot

  -- The slot with what the boot loader answers, or as it was where that fails.
  abbrev pub refreshed : State → Option Str → RaucSlot → RaucSlot
  refreshed s none slot = slot
  refreshed s (some name) slot = answer_or slot (boot_get_state g x p c slot s).0

  abbrev pub is_error : Result Bool → Bool
  is_error (ok good) = false
  is_error (err e) = true

  abbrev pub fails : State → Option Str → RaucSlot → Bool
  fails s none slot = false
  fails s (some name) slot = is_error (boot_get_state g x p c slot s).0

  unfoldable pub any_fails : State → List RaucSlot → Bool
  any_fails s [] = false
  any_fails s (slot ∷ slots) = fails s slot.bootname slot || any_fails s slots

  abbrev pub refreshed_all : State → List RaucSlot → List RaucSlot
  refreshed_all s slots = map (λ slot. refreshed s slot.bootname slot) slots

  abbrev step : Option Str → RaucSlot → Exec State States → Exec State States
  step o slot rest = elim o [
    | none ↦ do r ← rest; pure (with_slot false slot r)
    | some name ↦
        catch (boot_get_state g x p c slot)
          (λ good. do r ← rest; pure (with_slot false (set_boot_good slot good) r))
          (λ e.
            if is_reported e then (do r ← rest; pure (with_slot true slot r)) else raise aborted)
  ]

  step_lem :
      (o : Option Str) (slot : RaucSlot) (rest : Exec State States) (r : States) (s : State)
      → Answered o slot s
      → rest s ≡ (ok r, s)
      → step o slot rest s ≡ (ok (with_slot (fails s o slot) (refreshed s o slot) r), s)
  step_lem none slot rest r s h e = rw e
  step_lem (some name) slot rest r s h e = by_answer (boot_get_state g x p c slot s) h
    where
      by_answer :
          (a : Result Bool × State)
          → Answer a s
          → resume a.0
              (λ good. rest >>= λ q. pure (with_slot false (set_boot_good slot good) q))
              (λ k.
                if is_reported k
                then (rest >>= λ q. pure (with_slot true slot q))
                else raise aborted)
              a.1
            ≡ (ok (with_slot (is_error a.0) (answer_or slot a.0) r), s)
      by_answer (ok good, after) h = rw (h, e)
      by_answer (err k, after) (h, reported) = rw (reported, h, e)

  boot_states_lem :
      (slots : List RaucSlot) (s : State)
      → All (λ slot. Answered slot.bootname slot s) slots
      → boot_states slots s ≡ (ok (any_fails s slots, refreshed_all s slots), s)
  unfolding boot_states any_fails
  boot_states_lem [] s h = refl
  boot_states_lem (slot ∷ slots) s (h, hs) =
      step_lem slot.bootname slot (boot_states slots) (any_fails s slots, refreshed_all s slots) s h
        (boot_states_lem slots s hs)

  -- Where the boot loader, asked for each slot with a boot name, leaves the machine as it is and
  -- fails with a message if it fails, determine_boot_states stores its answer as the boot_good of
  -- each of them, changes nothing else of a slot and no slot without an answer, and fails exactly if
  -- the boot loader failed for one of them.
  pub determine_boot_states_lem :
      (slots : List RaucSlot) (s : State)
      → All (λ slot. Answered slot.bootname slot s) slots
      → determine_boot_states (s, slots)
        ≡ (if any_fails s slots then err slot_no_booted else ok tt, (s, refreshed_all s slots))
  unfolding determine_boot_states
  determine_boot_states_lem slots s h =
      ap (finish slots) (boot_states_lem slots s h) ∙ by_failure (any_fails s slots)
    where
      by_failure :
          (b : Bool)
          → finish slots (ok (b, refreshed_all s slots), s)
            ≡ (if b then err slot_no_booted else ok tt, (s, refreshed_all s slots))
      by_failure true = refl
      by_failure false = refl
