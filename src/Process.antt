-- ===== src/Process.antt =====
-- The programs that RAUC starts (grub-editenv, fw_setenv, barebox-state, efibootmgr, a custom
-- backend) and the GSubprocess calls around them. The programs are not part of the repository: they
-- are the parameter `Processes`, a function of the argument vector on a state of the machine.
use docker_yocto_kirkstone_n.Prelude.{ℕ, List, Str, ◌==◌, if◌then◌else◌}
use docker_yocto_kirkstone_n.Exec.{
  Result, ok, err, Exec, spawn_failed, communicate_failed, spawn_abnormal, spawn_exit,
}

pub data Exit : Type 0 where
  signaled : Exit
  code : ℕ → Exit

pub data Outcome : Type 0 where
  -- g_subprocess_newv() failed
  not_started : Outcome
  -- reading the output or waiting failed
  broken : Outcome
  -- the standard output, and how the process ended
  ended : Str → Exit → Outcome

pub record Processes : Type 1 where
  pub State : Type 0
  pub run : List Str → State → Outcome × State

abbrev pub exit_status : {A : Type 0} → Exit → A → Result A
exit_status signaled a = err spawn_abnormal
exit_status (code n) a = if n == 0 then ok a else err (spawn_exit n)

-- g_subprocess_communicate(), g_subprocess_get_if_exited() and the test of the exit status.
abbrev pub output_of : Outcome → Result Str
output_of not_started = err spawn_failed
output_of broken = err communicate_failed
output_of (ended out exit) = exit_status exit out

-- g_subprocess_wait_check()
abbrev pub check_of : Outcome → Result (Unit {0})
check_of not_started = err spawn_failed
check_of broken = err communicate_failed
check_of (ended out exit) = exit_status exit tt

module _ (p : Processes) where
  open p use {State, run}

  unfoldable pub communicate : List Str → Exec State Str
  communicate argv s = (output_of (run argv s).0, (run argv s).1)

  unfoldable pub wait_check : List Str → Exec State (Unit {0})
  wait_check argv s = (check_of (run argv s).0, (run argv s).1)
