-- ===== src/Boot/Grub/Vars.antt =====
-- The variables that the GRUB backend writes, as an environment.
use docker_yocto_kirkstone_n.Prelude.{
  ◌≡◌, ◌≢◌, sym, Bool, true, false, [], ◌∷◌, ◌++◌, append_assoc, map, Option, some, Str, codes,
  Lacks, All, All-append, arith, if◌then◌else◌,
}
use docker_yocto_kirkstone_n.Glib.{Glib, GlibLaws, newline}
use docker_yocto_kirkstone_n.Boot.Env.{Env, equals, assignment, assigned, CleanEntry}
use docker_yocto_kirkstone_n.Boot.Hygiene.{
  BootName, Graphic-Lacks, ok-ne-try, ok-ne-order, try-ne-order, suffix-ne, str_eq-false,
  str_eq_self,
}
use docker_yocto_kirkstone_n.Boot.Grub.{state_pairs}

abbrev pub ok_var : Str → Str
ok_var name = name ++ codes "_OK"

abbrev pub try_var : Str → Str
try_var name = name ++ codes "_TRY"

abbrev pub order_var : Str
order_var = codes "ORDER"

abbrev pub flag : Bool → Str
flag true = codes "1"
flag false = codes "0"

abbrev pub state_env : Str → Bool → Env
state_env name good = (ok_var name, flag good) ∷ (try_var name, codes "0") ∷ []

abbrev pub primary_env : Str → Str → Env
primary_env name order =
    (ok_var name, flag true) ∷ (try_var name, codes "0") ∷ (order_var, order) ∷ []

pub state_pairs-state_env :
    (name : Str) (good : Bool) → state_pairs name good ≡ map assignment (state_env name good)
state_pairs-state_env name true =
    simp
      (append_assoc name (codes "_OK") (codes "=1"), append_assoc name (codes "_TRY") (codes "=0"))
state_pairs-state_env name false =
    simp
      (append_assoc name (codes "_OK") (codes "=0"), append_assoc name (codes "_TRY") (codes "=0"))

pub primary_pairs-primary_env :
    (name order : Str)
    → (name ++ codes "_OK=1") ∷ (name ++ codes "_TRY=0") ∷ (codes "ORDER=" ++ order) ∷ []
      ≡ map assignment (primary_env name order)
primary_pairs-primary_env name order =
    simp
      (append_assoc name (codes "_OK") (codes "=1"), append_assoc name (codes "_TRY") (codes "=0"))

key-Clean :
    (name suffix value : Str)
    → BootName name
    → Lacks equals suffix
    → Lacks newline suffix
    → Lacks newline value
    → CleanEntry (name ++ suffix, value)
key-Clean name suffix value h he hn hv = (
  All-append (λ c. c ≢ equals) name suffix h.no_equals he,
  All-append (λ c. c ≢ newline) name suffix (Graphic-Lacks name newline (omega arith) h.graphic) hn,
  hv,
)

pub ok_var-Lacks : (name : Str) → BootName name → Lacks equals (ok_var name)
ok_var-Lacks name h = All-append (λ c. c ≢ equals) name _ h.no_equals (omega arith)

pub try_var-Lacks : (name : Str) → BootName name → Lacks equals (try_var name)
try_var-Lacks name h = All-append (λ c. c ≢ equals) name _ h.no_equals (omega arith)

pub state_env-Clean :
    (name : Str) (good : Bool) → BootName name → All CleanEntry (state_env name good)
state_env-Clean name true h = (
  key-Clean name (codes "_OK") (flag true) h (omega arith) (omega arith) (omega arith),
  (key-Clean name (codes "_TRY") (codes "0") h (omega arith) (omega arith) (omega arith), tt),
)
state_env-Clean name false h = (
  key-Clean name (codes "_OK") (flag false) h (omega arith) (omega arith) (omega arith),
  (key-Clean name (codes "_TRY") (codes "0") h (omega arith) (omega arith) (omega arith), tt),
)

pub primary_env-Clean :
    (name order : Str)
    → BootName name
    → Lacks newline order
    → All CleanEntry (primary_env name order)
primary_env-Clean name order h ho = (
  key-Clean name (codes "_OK") (flag true) h (omega arith) (omega arith) (omega arith),
  (
    key-Clean name (codes "_TRY") (codes "0") h (omega arith) (omega arith) (omega arith),
    ((omega arith, omega arith, ho), tt),
  ),
)

module _ (name : Str) (good : Bool) (old : Option Str) where
  pub state_env-ok : assigned (state_env name good) (ok_var name) old ≡ some (flag good)
  unfolding assigned
  state_env-ok = ground (
    arith,
    str_eq_self (ok_var name),
    str_eq-false (try_var name) (ok_var name) (λ e. ok-ne-try name name (sym e)),
  )

  pub state_env-try : assigned (state_env name good) (try_var name) old ≡ some (codes "0")
  unfolding assigned
  state_env-try = ground (arith, str_eq_self (try_var name))

  pub state_env-order : assigned (state_env name good) order_var old ≡ old
  unfolding assigned
  state_env-order = ground (
    arith,
    str_eq-false (ok_var name) order_var (ok-ne-order name),
    str_eq-false (try_var name) order_var (try-ne-order name),
  )

  module _ (other : Str) (differ : name ≢ other) where
    pub state_env-ok_ne : assigned (state_env name good) (ok_var other) old ≡ old
    unfolding assigned
    state_env-ok_ne = ground (
      arith,
      str_eq-false (ok_var name) (ok_var other) (suffix-ne name other _ differ),
      str_eq-false (try_var name) (ok_var other) (λ e. ok-ne-try other name (sym e)),
    )

    pub state_env-try_ne : assigned (state_env name good) (try_var other) old ≡ old
    unfolding assigned
    state_env-try_ne = ground (
      arith,
      str_eq-false (ok_var name) (try_var other) (ok-ne-try name other),
      str_eq-false (try_var name) (try_var other) (suffix-ne name other _ differ),
    )

module _ (name order : Str) (old : Option Str) where
  pub primary_env-ok : assigned (primary_env name order) (ok_var name) old ≡ some (flag true)
  unfolding assigned
  primary_env-ok = ground (
    arith,
    str_eq_self (ok_var name),
    str_eq-false (try_var name) (ok_var name) (λ e. ok-ne-try name name (sym e)),
    str_eq-false order_var (ok_var name) (λ e. ok-ne-order name (sym e)),
  )

  pub primary_env-try : assigned (primary_env name order) (try_var name) old ≡ some (codes "0")
  unfolding assigned
  primary_env-try = ground (
    arith,
    str_eq_self (try_var name),
    str_eq-false order_var (try_var name) (λ e. try-ne-order name (sym e)),
  )

  pub primary_env-order : assigned (primary_env name order) order_var old ≡ some order
  unfolding assigned
  primary_env-order = ground (arith, str_eq_self order_var)

module _ (g : Glib) (laws : GlibLaws g) where
  -- A flag is read back as its number.
  pub strtoull_flag :
      (good : Bool) → (g.strtoull (g.strchomp (flag good)) 0) ≡ (if good then 1 else 0)
  strtoull_flag true =
      rw (laws.strchomp_graphic [] b'1' (omega arith)) (laws.strtoull_digit 1 (omega arith))
  strtoull_flag false =
      rw (laws.strchomp_graphic [] b'0' (omega arith)) (laws.strtoull_digit 0 (omega arith))
