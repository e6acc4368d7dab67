-- ===== src/Boot/Uboot/Tool.antt =====
-- What the code relies on of fw_printenv and fw_setenv, and the variables read and written by them.
use docker_yocto_kirkstone_n.Prelude.{
  ℕ, suc, ◌+◌, ◌≡◌, ◌≢◌, refl, ap, [], ◌∷◌, ◌++◌, append_assoc, Option, none, some, Str, str_eq,
  length, length-append, if◌then◌else◌,
}
use native.Mathlib.Numerals.{add-one}
use docker_yocto_kirkstone_n.Exec.{ok, err, spawn_exit}
use docker_yocto_kirkstone_n.Process.{Processes, ended, code, communicate, wait_check}
use docker_yocto_kirkstone_n.Glib.{Glib, GlibLaws, newline}
use docker_yocto_kirkstone_n.Context.{RaucConfig}
use docker_yocto_kirkstone_n.Boot.Env.{assignment, equals}
use docker_yocto_kirkstone_n.Boot.Uboot.{
  printenv_argv, setenv_argv, behind, uboot_env_get, uboot_env_set,
}

-- The manual of the fw_ tools: `fw_printenv <key>` prints `<key>=<value>` and fails with 1 where the
-- variable is not set; `fw_setenv <key> <value>` sets a value that is not empty.
pub record FwEnv (p : Processes) : Type 0 where
  pub env : p.State → Str → Option Str
  pub print_set :
      (key value : Str) (s : p.State)
      → env s key ≡ some value
      → p.run (printenv_argv key) s
        ≡ (ended (assignment (key, value) ++ (newline ∷ [])) (code 0), s)
  pub print_unset :
      (key : Str) (s : p.State)
      → env s key ≡ none
      → p.run (printenv_argv key) s ≡ (ended [] (code 1), s)
  pub set_exit :
      (key value : Str) (s : p.State)
      → value ≢ []
      → (p.run (setenv_argv key value) s).0 ≡ ended [] (code 0)
  pub set_env :
      (key value : Str) (s : p.State) (j : Str)
      → value ≢ []
      → env (p.run (setenv_argv key value) s).1 j ≡ (if str_eq key j then some value else env s j)

behind_key : (key : Str) (c : ℕ) (t : Str) → behind (suc (length key)) (key ++ (c ∷ t)) ≡ some t
unfolding behind
behind_key [] c t = refl
behind_key (x ∷ key) c t = behind_key key c t

behind-assignment :
    (key value : Str)
    → behind (length key + 1) (assignment (key, value) ++ (newline ∷ []))
      ≡ some (value ++ (newline ∷ []))
behind-assignment key value =
    rw (add-one, append_assoc key (equals ∷ value) (newline ∷ [])) (behind_key key equals _)

module _ (g : Glib) (laws : GlibLaws g) (p : Processes) (c : RaucConfig) (tool : FwEnv p) where
  pub env_get_set :
      (key value : Str) (s : p.State)
      → tool.env s key ≡ some value
      → uboot_env_get g p c key s
        ≡ (ok (record { str = g.strchomp value; len = length value + 1 }), s)
  unfolding uboot_env_get communicate
  env_get_set key value s e =
      rw (tool.print_set key value s e, behind-assignment key value, laws.strchomp_newline value)
        (ap (λ n. (ok (record { str = g.strchomp value; len = n }), s))
          (length-append value (newline ∷ [])))

  pub env_get_unset :
      (key : Str) (s : p.State)
      → tool.env s key ≡ none
      → uboot_env_get g p c key s ≡ (err (spawn_exit 1), s)
  unfolding uboot_env_get communicate
  env_get_unset key s e = rw (tool.print_unset key s e)

  pub env_set_lem :
      (key value : Str) (s : p.State)
      → value ≢ []
      → uboot_env_set g p c key value s ≡ (ok tt, (p.run (setenv_argv key value) s).1)
  unfolding uboot_env_set wait_check
  env_set_lem key value s h = rw (tool.set_exit key value s h)
