-- ===== src/Boot/Grub/Tool.antt =====
-- What the code relies on of grub-editenv, and grub_env_get on an environment block.
use docker_yocto_kirkstone_n.Prelude.{
  ◌≡◌, ap, [], ◌∷◌, ◌++◌, map, some, Str, codes, join, Lacks, All, arith,
}
use docker_yocto_kirkstone_n.Exec.{ok}
use docker_yocto_kirkstone_n.Process.{Processes, ended, code, communicate, wait_check}
use docker_yocto_kirkstone_n.Glib.{Glib, GlibLaws, newline}
use docker_yocto_kirkstone_n.Context.{RaucConfig}
use docker_yocto_kirkstone_n.Boot.Env.{
  Env, equals, assignment, lookup_env, assigned, CleanEntry, listing, strip_assignment, strip_empty,
  strsplit-listing,
}
use docker_yocto_kirkstone_n.Boot.Grub.{
  list_argv, set_argv, find_variable, chomped, grub_env_get, grub_env_set,
}

-- The manual of grub-editenv: `list` prints each variable on a line of its own, `set` assigns
-- variables, and both exit with 0.
pub record GrubEditenv (p : Processes) (path : Str) : Type 0 where
  pub env : p.State → Env
  pub clean : (s : p.State) → All CleanEntry (env s)
  pub list_run :
      (s : p.State) → p.run (list_argv (some path)) s ≡ (ended (listing (env s)) (code 0), s)
  pub set_exit :
      (pairs : Env) (s : p.State)
      → All CleanEntry pairs
      → (p.run (set_argv path (map assignment pairs)) s).0 ≡ ended [] (code 0)
  pub set_env :
      (pairs : Env) (s : p.State) (j : Str)
      → All CleanEntry pairs
      → lookup_env j (env (p.run (set_argv path (map assignment pairs)) s).1)
        ≡ assigned pairs j (lookup_env j (env s))

find_variable-lines :
    (key : Str) (env : Env)
    → Lacks equals key
    → All CleanEntry env
    → find_variable (key ++ codes "=") (map assignment env ++ ([] ∷ [])) ≡ lookup_env key env
unfolding find_variable lookup_env
find_variable-lines key [] hk h = ground (arith, strip_empty key)
find_variable-lines key ((j, v) ∷ env) hk (h, hs) =
    ground (arith, strip_assignment key j v hk h.0, find_variable-lines key env hk hs)

find_variable-listing :
    (g : Glib)
    → GlibLaws g
    → (key : Str) (env : Env) → Lacks equals key
    → All CleanEntry env
    → find_variable (key ++ codes "=") (g.strsplit (listing env) newline) ≡ lookup_env key env
unfolding find_variable lookup_env join
find_variable-listing g laws key [] hk h = rw laws.strsplit-nil
find_variable-listing g laws key (e ∷ env) hk h =
    rw (strsplit-listing g laws e env h) (find_variable-lines key (e ∷ env) hk h)

module _ (g : Glib) (laws : GlibLaws g) (p : Processes) (c : RaucConfig) (path : Str)
    (configured : c.grubenv_path ≡ some path) (tool : GrubEditenv p path) where
  -- Reading a variable leaves the machine as it is and returns what the block holds.
  pub grub_env_get_lem :
      (key : Str) (s : p.State)
      → Lacks equals key
      → grub_env_get g p c key s ≡ (chomped g (lookup_env key (tool.env s)), s)
  unfolding grub_env_get communicate
  grub_env_get_lem key s hk =
      simp (configured, tool.list_run s)
        (ap (λ o. (chomped g o, s))
          (find_variable-listing g laws key (tool.env s) hk (tool.clean s)))

  -- The machine after an assignment.
  abbrev pub after : Env → p.State → p.State
  after pairs s = (p.run (set_argv path (map assignment pairs)) s).1

  pub grub_env_set_lem :
      (pairs : Env) (s : p.State)
      → All CleanEntry pairs
      → grub_env_set g p c (map assignment pairs) s ≡ (ok tt, after pairs s)
  unfolding grub_env_set wait_check
  grub_env_set_lem pairs s clean = simp (configured, tool.set_exit pairs s clean)
