-- ===== src/Examples/BareboxTool.antt =====
-- barebox-state on a list of variables.
use docker_yocto_kirkstone_n.Prelude.{
  ℕ, ◌%◌, ◌^◌, ◌<◌, ◌≡◌, refl, ap, ◌∙◌, List, [], ◌∷◌, ◌++◌, map, Str, codes, str_eq, All,
  if◌then◌else◌, arith, In, Bool-cases, inl, inr,
}
use docker_yocto_kirkstone_n.Prelude.Digits.{print_dec}
use docker_yocto_kirkstone_n.Glib.{newline}
use docker_yocto_kirkstone_n.Process.{Outcome, Processes, not_started, ended, code}
use docker_yocto_kirkstone_n.Boot.Barebox.{priority_var, attempts_var, barebox_argv, flag_each}
use docker_yocto_kirkstone_n.Boot.Barebox.Tool.{BareboxState, renumbered, pair_text}
use docker_yocto_kirkstone_n.Boot.Barebox.Tool.{CleanPair, Assignable}
use docker_yocto_kirkstone_n.Examples.Numbers.{parse, parse-print_dec}
use docker_yocto_kirkstone_n.Examples.GrubTool.{split_pair, split_pair-assignment}
use docker_yocto_kirkstone_n.Examples.Board.{board}

abbrev pub Vars : Type 0
Vars = List (Str × ℕ)

unfoldable pub number_of : Str → Vars → ℕ
number_of name [] = 0
number_of name ((k, n) ∷ vars) = if str_eq k name then n else number_of name vars

unfoldable pub read_pair : Str → Str × ℕ
unfolding parse
read_pair text = ((split_pair text).0, parse 10 0 (split_pair text).1)

read_pair-text : (e : Str × ℕ) → CleanPair e → read_pair (pair_text e) ≡ e
unfolding read_pair
read_pair-text (k, n) (h, small) =
    rw (split_pair-assignment k (print_dec n) h) (ap (λ m. (k, m)) (parse-print_dec n small))

-- `-s <variable>=<value>`, any number of times
unfoldable pub assign_all : List Str → Vars → Vars
unfolding read_pair
assign_all (flag ∷ pair ∷ rest) vars = assign_all rest (read_pair pair ∷ vars)
assign_all _ vars = vars

abbrev pub word_of : Str → Vars → ℕ
word_of name vars = number_of name vars % 2 ^ 32

abbrev pub printed : Str → Str → Vars → Outcome
printed a b vars =
    ended (print_dec (word_of a vars) ++ (newline ∷ (print_dec (word_of b vars) ++ (newline ∷ []))))
      (code 0)

abbrev pub get : List Str → Vars → Outcome
get (a ∷ flag ∷ b ∷ []) vars = printed a b vars
get _ vars = not_started

unfoldable pub run : List Str → Vars → Outcome × Vars
unfolding assign_all number_of str_eq
run [] vars = (not_started, vars)
run (prog ∷ []) vars = (ended [] (code 0), vars)
run (prog ∷ flag ∷ rest) vars =
    if str_eq flag (codes "-g")
    then (get rest vars, vars)
    else (ended [] (code 0), assign_all (flag ∷ rest) vars)

abbrev pub barebox_tools : Processes
barebox_tools = record { State = Vars; run = run }

word_of_head :
    (k : Str) (n : ℕ) (vars : Vars) (j : Str)
    → n < 2 ^ 32
    → word_of j ((k, n) ∷ vars) ≡ (if str_eq k j then n else word_of j vars)
unfolding number_of
word_of_head k n vars j small = elim (Bool-cases (str_eq k j)) [
  | inl e ↦ rw e (omega arith)
  | inr e ↦ rw e
]

assigned_each :
    (pairs : List (Str × ℕ)) (vars : Vars) (j : Str)
    → All CleanPair pairs
    → word_of j (assign_all (flag_each (codes "-s") (map pair_text pairs) []) vars)
      ≡ renumbered pairs j (word_of j vars)
unfolding assign_all renumbered
assigned_each [] vars j h = refl
assigned_each ((k, n) ∷ pairs) vars j (h, hs) =
    assigned_each pairs (read_pair (pair_text (k, n)) ∷ vars) j hs
    ∙ ap (λ o. renumbered pairs j o)
        (ap (λ e. word_of j (e ∷ vars)) (read_pair-text (k, n) h) ∙ word_of_head k n vars j h.1)

pub word_of-run :
    (pairs : List (Str × ℕ)) (vars : Vars) (j : Str)
    → All CleanPair pairs
    → word_of j (run (barebox_argv board (codes "-s") (map pair_text pairs)) vars).1
      ≡ renumbered pairs j (word_of j vars)
unfolding run str_eq assign_all
word_of-run [] vars j h = assigned_each [] vars j h
word_of-run (e ∷ pairs) vars j h = assigned_each (e ∷ pairs) vars j h

pub exits :
    (pairs : List (Str × ℕ)) (vars : Vars)
    → (run (barebox_argv board (codes "-s") (map pair_text pairs)) vars).0 ≡ ended [] (code 0)
unfolding run str_eq
exits [] vars = refl
exits (e ∷ pairs) vars = refl

pub word_small : (vars : Vars) (name : Str) → word_of name vars < 2 ^ 32
word_small vars name = omega arith

abbrev pub variables : List Str
variables =
    priority_var (codes "A")
    ∷ attempts_var (codes "A")
    ∷ priority_var (codes "B")
    ∷ attempts_var (codes "B")
    ∷ []

pub clean :
    (pairs : List (Str × ℕ))
    → All (Assignable (λ name. In name variables)) pairs
    → All CleanPair pairs
clean [] h = tt
clean (e ∷ pairs) (h, hs) = (h.1, clean pairs hs)

unfoldable pub barebox_state : BareboxState barebox_tools board
unfolding run str_eq
barebox_state = record {
  has = λ name. In name variables;
  value = λ vars name. word_of name vars;
  small = word_small;
  get_run = λ a b vars ha hb. refl;
  set_exit = λ pairs vars h. exits pairs vars;
  set_value = λ pairs vars j h hj. word_of-run pairs vars j (clean pairs h);
}
