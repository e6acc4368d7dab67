-- ===== src/Examples/CustomRun.antt =====
-- A custom backend written out, and run on the board.
use docker_yocto_kirkstone_n.Prelude.{
  ◌≡◌, refl, Bool, true, false, List, [], ◌∷◌, ◌++◌, some, Str, codes, str_eq, if◌then◌else◌,
}
use docker_yocto_kirkstone_n.Exec.{ok}
use docker_yocto_kirkstone_n.Glib.{newline}
use docker_yocto_kirkstone_n.Process.{Outcome, Processes, not_started, ended, code}
use docker_yocto_kirkstone_n.Context.{RaucConfig}
use docker_yocto_kirkstone_n.Boot.Custom.{
  state_arg, custom_get_primary, custom_set_primary, custom_get_state, custom_set_state,
}
use docker_yocto_kirkstone_n.Boot.Custom.Contract.{
  CustomBackend, custom_get_primary-custom_set_primary, custom_get_state-custom_set_state,
}
use docker_yocto_kirkstone_n.Examples.GlibModel.{glib, glib_laws}
use docker_yocto_kirkstone_n.Examples.Board.{board, rootfs_a, rootfs_b, b-BootName, b-Owns}

-- The primary boot name, and the marks that were made, the last one first.
pub record Kept : Type 0 where
  pub primary : Str
  pub marks : List (Str × Bool)

unfoldable pub mark_of : Str → List (Str × Bool) → Bool
mark_of name [] = false
mark_of name ((k, good) ∷ marks) = if str_eq k name then good else mark_of name marks

abbrev pub line : Str → Outcome
line text = ended (text ++ (newline ∷ [])) (code 0)

unfoldable pub run : List Str → Kept → Outcome × Kept
unfolding mark_of str_eq
run (prog ∷ cmd ∷ []) s = (line s.primary, s)
run (prog ∷ cmd ∷ name ∷ []) s =
    if str_eq cmd (codes "get-state")
    then (line (state_arg (mark_of name s.marks)), s)
    else (ended [] (code 0), record s { primary = name })
run (prog ∷ cmd ∷ name ∷ state ∷ []) s =
    (ended [] (code 0), record s { marks = (name, str_eq state (codes "good")) ∷ s.marks })
run _ s = (not_started, s)

abbrev pub custom_tools : Processes
custom_tools = record { State = Kept; run = run }

marked :
    (name : Str) (good : Bool) (s : Kept) (j : Str)
    → mark_of j ((name, str_eq (state_arg good) (codes "good")) ∷ s.marks)
      ≡ (if str_eq name j then good else mark_of j s.marks)
unfolding mark_of str_eq
marked name true s j = refl
marked name false s j = refl

custom_backend : CustomBackend custom_tools (codes "/usr/bin/select-slot")
unfolding run str_eq mark_of
custom_backend = record {
  primary = λ s. s.primary;
  status = λ s name. mark_of name s.marks;
  get_primary_run = λ s. refl;
  get_state_run = λ name s. refl;
  set_primary_exit = λ name s. refl;
  set_primary_run = λ name s. refl;
  set_state_exit = λ name good s. refl;
  set_state_run = λ name good s j. marked name good s j;
}

abbrev custom_board : RaucConfig
custom_board = record board { custom_bootloader_backend = some (codes "/usr/bin/select-slot") }

abbrev before : Kept
before = record { primary = codes "A"; marks = (codes "A", true) ∷ [] }

custom_get_primary-custom_set_primary_example :
    ((custom_set_primary glib custom_tools custom_board rootfs_b before).0 ≡ ok tt)
    × ((custom_get_primary glib custom_tools custom_board
          (custom_set_primary glib custom_tools custom_board rootfs_b before).1).0
        ≡ ok rootfs_b)
custom_get_primary-custom_set_primary_example =
    custom_get_primary-custom_set_primary glib glib_laws custom_tools custom_board
      (codes "/usr/bin/select-slot") refl custom_backend rootfs_b (codes "B") before b-Owns
      b-BootName.graphic

custom_get_state-custom_set_state_example :
    ((custom_set_state glib custom_tools custom_board rootfs_b true before).0 ≡ ok tt)
    × ((custom_get_state glib custom_tools custom_board rootfs_a
          (custom_set_state glib custom_tools custom_board rootfs_b true before).1).0
        ≡ (if str_eq (codes "B") (codes "A")
            then ok true
            else (custom_get_state glib custom_tools custom_board rootfs_a before).0))
custom_get_state-custom_set_state_example =
    custom_get_state-custom_set_state glib glib_laws custom_tools custom_board
      (codes "/usr/bin/select-slot") refl custom_backend rootfs_b rootfs_a (codes "B") (codes "A")
      true before refl refl
