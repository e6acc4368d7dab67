-- ===== src/Examples/GrubTool.antt =====
-- grub-editenv on a list of variables.
use docker_yocto_kirkstone_n.Prelude.{
  ℕ, ◌≡◌, ap, refl, ◌∙◌, Bool, true, not, ◌&&◌, List, [], ◌∷◌, map, Str, codes, str_eq, ◌==◌, Lacks,
  All, inl, inr, Bool-cases, if◌then◌else◌, arith,
}
use docker_yocto_kirkstone_n.Glib.{newline}
use docker_yocto_kirkstone_n.Process.{Outcome, Processes, not_started, ended, code}
use docker_yocto_kirkstone_n.Boot.Env.{
  Env, equals, assignment, lookup_env, assigned, CleanEntry, listing,
}
use docker_yocto_kirkstone_n.Boot.Grub.Tool.{GrubEditenv}

unfoldable pub lacks : ℕ → Str → Bool
lacks b [] = true
lacks b (c ∷ s) = not (c == b) && lacks b s

pub lacks_sound : (b : ℕ) (s : Str) → lacks b s ≡ true → Lacks b s
unfolding lacks
lacks_sound b [] h = tt
lacks_sound b (c ∷ s) h = ground (arith, lacks_sound b s)

pub lacks_complete : (b : ℕ) (s : Str) → Lacks b s → lacks b s ≡ true
unfolding lacks
lacks_complete b [] h = refl
lacks_complete b (c ∷ s) (h, hs) = ground (arith, lacks_complete b s hs)

unfoldable pub is_clean : Str × Str → Bool
unfolding lacks
is_clean (key, value) = lacks equals key && lacks newline key && lacks newline value

is_clean_sound : (e : Str × Str) → is_clean e ≡ true → CleanEntry e
unfolding is_clean
is_clean_sound (k, v) h =
    ground (arith, lacks_sound equals k, lacks_sound newline k, lacks_sound newline v)

is_clean_complete : (e : Str × Str) → CleanEntry e → is_clean e ≡ true
unfolding is_clean
is_clean_complete (k, v) (a, b, d) =
    rw (lacks_complete equals k a, lacks_complete newline k b, lacks_complete newline v d)

-- The entries that a block can hold.
unfoldable pub cleaned : Env → Env
unfolding is_clean
cleaned [] = []
cleaned (e ∷ env) = if is_clean e then e ∷ cleaned env else cleaned env

pub cleaned-CleanEntry : (env : Env) → All CleanEntry (cleaned env)
unfolding cleaned
cleaned-CleanEntry [] = tt
cleaned-CleanEntry (e ∷ env) = elim (Bool-cases (is_clean e)) [
  | inl h ↦ rw h (is_clean_sound e h, cleaned-CleanEntry env)
  | inr h ↦ rw h (cleaned-CleanEntry env)
]

-- `<key>=<value>` at its first `=`.
unfoldable pub split_pair : Str → Str × Str
split_pair [] = ([], [])
split_pair (c ∷ s) =
    let rest = split_pair s in if c == equals then ([], s) else (c ∷ rest.0, rest.1)

pub split_pair-assignment : (k v : Str) → Lacks equals k → split_pair (assignment (k, v)) ≡ (k, v)
unfolding split_pair
split_pair-assignment [] v h = ground arith
split_pair-assignment (c ∷ k) v (h, hs) = ground (arith, split_pair-assignment k v hs)

unfoldable pub store : List Str → Env → Env
unfolding split_pair
store [] env = env
store (a ∷ pairs) env = store pairs (split_pair a ∷ env)

pub store-assigned :
    (pairs env : Env) (j : Str)
    → All CleanEntry pairs
    → lookup_env j (cleaned (store (map assignment pairs) env))
      ≡ assigned pairs j (lookup_env j (cleaned env))
unfolding store assigned lookup_env cleaned
store-assigned [] env j h = refl
store-assigned ((k, v) ∷ pairs) env j (h, hs) =
    store-assigned pairs (split_pair (assignment (k, v)) ∷ env) j hs
    ∙ ap (λ o. assigned pairs j o) (rw (split_pair-assignment k v h.0, is_clean_complete (k, v) h))

unfoldable pub run : List Str → Env → Outcome × Env
unfolding str_eq cleaned store
run (prog ∷ path ∷ cmd ∷ rest) env =
    if str_eq cmd (codes "list")
    then (ended (listing (cleaned env)) (code 0), env)
    else (ended [] (code 0), store rest env)
run _ env = (not_started, env)

abbrev pub grub_tools : Processes
grub_tools = record { State = Env; run = run }

unfoldable pub grub_editenv : (path : Str) → GrubEditenv grub_tools path
unfolding run str_eq
grub_editenv path = record {
  env = cleaned;
  clean = cleaned-CleanEntry;
  list_run = λ s. refl;
  set_exit = λ pairs s h. refl;
  set_env = λ pairs s j h. store-assigned pairs s j h;
}
