-- ===== src/Examples/FwTool.antt =====
-- fw_printenv and fw_setenv on a list of variables.
use docker_yocto_kirkstone_n.Prelude.{refl, List, [], ◌∷◌, ◌++◌, Option, none, some, Str}
use docker_yocto_kirkstone_n.Glib.{newline}
use docker_yocto_kirkstone_n.Process.{Outcome, Processes, not_started, ended, code}
use docker_yocto_kirkstone_n.Boot.Env.{Env, assignment, lookup_env}
use docker_yocto_kirkstone_n.Boot.Uboot.Tool.{FwEnv}

abbrev pub printed : Str → Option Str → Outcome
printed key none = ended [] (code 1)
printed key (some value) = ended (assignment (key, value) ++ (newline ∷ [])) (code 0)

unfoldable pub run : List Str → Env → Outcome × Env
unfolding lookup_env
run (prog ∷ key ∷ []) env = (printed key (lookup_env key env), env)
run (prog ∷ key ∷ value ∷ []) env = (ended [] (code 0), (key, value) ∷ env)
run _ env = (not_started, env)

abbrev pub fw_tools : Processes
fw_tools = record { State = Env; run = run }

unfoldable pub fw_env : FwEnv fw_tools
unfolding run lookup_env
fw_env = record {
  env = λ s key. lookup_env key s;
  print_set = λ key value s e. rw e;
  print_unset = λ key s e. rw e;
  set_exit = λ key value s h. refl;
  set_env = λ key value s j h. refl;
}
