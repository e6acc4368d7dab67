-- ===== src/Boot/Barebox/Tool.antt =====
-- What the code relies on of barebox-state, and barebox_state_get on the variables.
use docker_yocto_kirkstone_n.Prelude.{
  ℕ, ◌%◌, ◌^◌, ◌<◌, ◌≡◌, ap, ◌∙◌, false, List, [], ◌∷◌, ◌++◌, map, Option, none, some, Str, codes,
  str_eq, All, Lacks, if◌then◌else◌, arith,
}
use docker_yocto_kirkstone_n.Prelude.Digits.{print_dec, print_dec_graphic}
use docker_yocto_kirkstone_n.Exec.{ok}
use docker_yocto_kirkstone_n.Process.{Processes, ended, code, wait_check}
use docker_yocto_kirkstone_n.Glib.{Glib, GlibLaws, newline}
use docker_yocto_kirkstone_n.Context.{RaucConfig}
use docker_yocto_kirkstone_n.Boot.Hygiene.{Graphic-Lacks}
use docker_yocto_kirkstone_n.Boot.Env.{equals}
use docker_yocto_kirkstone_n.Boot.Barebox.{
  BareboxSlotState, priority_var, attempts_var, barebox_argv, number_pair, parsed_value, two_values,
  state_lines, barebox_state_get, barebox_state_set,
}

-- The value of a variable after assignments that are made one after another.
unfoldable pub renumbered : List (Str × ℕ) → Str → ℕ → ℕ
renumbered [] j old = old
renumbered ((k, n) ∷ pairs) j old = renumbered pairs j (if str_eq k j then n else old)

abbrev pub pair_text : Str × ℕ → Str
pair_text (name, n) = number_pair name n

-- No `=` in the name, and a number of 32 bits.
abbrev pub CleanPair : Str × ℕ → Type 0
CleanPair (name, n) = Lacks equals name × (n < 2 ^ 32)

abbrev pub Assignable : (Str → Type 0) → Str × ℕ → Type 0
Assignable has (name, n) = has name × CleanPair (name, n)

-- The manual of barebox-state: `-g` prints the value of a variable that the state defines on a line
-- of its own, `-s` assigns one. Of names that the state does not define nothing is said. The
-- variables are 32 bits wide.
pub record BareboxState (p : Processes) (c : RaucConfig) : Type 1 where
  -- whether the state defines a variable of this name
  pub has : Str → Type 0
  pub value : p.State → Str → ℕ
  pub small : (s : p.State) (name : Str) → value s name < 2 ^ 32
  pub get_run :
      (a b : Str) (s : p.State)
      → has a
      → has b
      → p.run (barebox_argv c (codes "-g") (a ∷ b ∷ [])) s ≡ (
        ended
            (print_dec (value s a) ++ (newline ∷ (print_dec (value s b) ++ (newline ∷ []))))
            (code 0),
        s,
      )
  pub set_exit :
      (pairs : List (Str × ℕ)) (s : p.State)
      → All (Assignable has) pairs
      → (p.run (barebox_argv c (codes "-s") (map pair_text pairs)) s).0 ≡ ended [] (code 0)
  pub set_value :
      (pairs : List (Str × ℕ)) (s : p.State) (j : Str)
      → All (Assignable has) pairs
      → has j
      → value (p.run (barebox_argv c (codes "-s") (map pair_text pairs)) s).1 j
        ≡ renumbered pairs j (value s j)

parsed_number :
    (n : ℕ) → parsed_value (record { value = n; at_start = false; overflow = false }) ≡ ok n
parsed_number n = ground arith

kept_small :
    (a b : ℕ)
    → a < 2 ^ 32
    → b < 2 ^ 32
    → two_values (ok a) (ok b) (code 0) ≡ ok (record { prio = a; attempts = b })
kept_small a b ha hb = ap ok (
    ap (λ n. record { prio = n; attempts = b % 2 ^ 32 }) (small_mod a ha)
    ∙ ap (λ n. record { prio = a; attempts = n }) (small_mod b hb))
  where
    small_mod : (n : ℕ) → n < 2 ^ 32 → n % 2 ^ 32 ≡ n
    small_mod n h = omega arith

module _ (g : Glib) (laws : GlibLaws g) (p : Processes) (c : RaucConfig)
    (tool : BareboxState p c) where
  abbrev pub state_in : p.State → Str → BareboxSlotState
  state_in s name = record {
    prio = tool.value s (priority_var name);
    attempts = tool.value s (attempts_var name);
  }

  -- The state defines the variables of this boot name, or there is no boot name.
  abbrev pub Defined : Option Str → Type 0
  Defined none = Unit {0}
  Defined (some name) = tool.has (priority_var name) × tool.has (attempts_var name)

  lines_of :
      (a b : ℕ)
      → g.data_lines (print_dec a ++ (newline ∷ (print_dec b ++ (newline ∷ []))))
        ≡ print_dec a ∷ print_dec b ∷ []
  lines_of a b = laws.data_lines_two (print_dec a) (print_dec b) (
    Graphic-Lacks (print_dec a) newline (omega arith) (print_dec_graphic a),
    (Graphic-Lacks (print_dec b) newline (omega arith) (print_dec_graphic b), tt),
  )

  -- Reading the state of a boot name whose variables are defined leaves the machine as it is.
  pub barebox_state_get_lem :
      (name : Str) (s : p.State)
      → Defined (some name)
      → barebox_state_get g p c name s ≡ (ok (state_in s name), s)
  unfolding barebox_state_get
  barebox_state_get_lem name s (hp, ha) =
      rw
        (
          tool.get_run (priority_var name) (attempts_var name) s hp ha,
          lines_of (tool.value s (priority_var name)) (tool.value s (attempts_var name)),
        )
        (ap (λ r. (r, s))
          (parsed_lines (tool.value s (priority_var name)) (tool.value s (attempts_var name))
            (tool.small s (priority_var name)) (tool.small s (attempts_var name))))
    where
      parsed_lines :
          (a b : ℕ)
          → a < 2 ^ 32
          → b < 2 ^ 32
          → state_lines g (print_dec a ∷ print_dec b ∷ []) (code 0)
            ≡ ok (record { prio = a; attempts = b })
      parsed_lines a b ha hb =
          ap
            (λ r.
              two_values (parsed_value r) (parsed_value (g.strtoull_checked (print_dec b) 10))
                (code 0))
            (laws.strtoull_checked-print_dec a ha)
          ∙ ap (λ r. two_values r (parsed_value (g.strtoull_checked (print_dec b) 10)) (code 0))
              (parsed_number a)
          ∙ ap (λ r. two_values (ok a) (parsed_value r) (code 0))
              (laws.strtoull_checked-print_dec b hb)
          ∙ ap (λ r. two_values (ok a) r (code 0)) (parsed_number b)
          ∙ kept_small a b ha hb

  pub barebox_state_set_lem :
      (pairs : List (Str × ℕ)) (s : p.State)
      → All (Assignable tool.has) pairs
      → barebox_state_set g p c (map pair_text pairs) s
        ≡ (ok tt, (p.run (barebox_argv c (codes "-s") (map pair_text pairs)) s).1)
  unfolding barebox_state_set wait_check
  barebox_state_set_lem pairs s h = rw (tool.set_exit pairs s h)
