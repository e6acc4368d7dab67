-- ===== src/Examples/SemverRun.antt =====
-- Versions compared.
use docker_yocto_kirkstone_n.Prelude.{
  ℕ, zero, suc, ◌+◌, ◌-◌, ◌*◌, ◌≤◌, ◌≡◌, ◌≢◌, ◌⊎◌, refl, Bool, true, false, List, [], ◌∷◌, Option,
  none, some, Str, codes, leb, ◌==◌, length, if◌then◌else◌, arith, Bool-cases, inl, inr,
}
use docker_yocto_kirkstone_n.Exec.{ok, err, number_invalid, aborted}
use docker_yocto_kirkstone_n.Compare.{memcmp}
use docker_yocto_kirkstone_n.Semver.{
  SemverGlib, Semver, core, parse, fields_le, version_le, less_equal,
}
use docker_yocto_kirkstone_n.Semver.Order.{less_equal_total, less_equal_trans}
use docker_yocto_kirkstone_n.Semver.Parse.{parse-three}
use docker_yocto_kirkstone_n.Examples.Split.{pieces, prepend}

abbrev extend : ℕ → Option (Str × Str) → Option (Str × Str)
extend c none = none
extend c (some (before, behind)) = some (c ∷ before, behind)

abbrev or_here : Bool → Str → Option (Str × Str) → Option (Str × Str)
or_here here s (some found) = some found
or_here true s none = some ([], s)
or_here false s none = none

unfoldable pub strrstr : Str → ℕ → Option (Str × Str)
strrstr [] b = none
strrstr (c ∷ s) b = or_here (c == b) s (extend c (strrstr s b))

-- The last part has the rest of the text.
unfoldable pub split_at_most : ℕ → ℕ → Str → List Str
split_at_most sep zero s = []
split_at_most sep (suc zero) s = s ∷ []
split_at_most sep (suc (suc n)) [] = [] ∷ []
split_at_most sep (suc (suc n)) (c ∷ s) =
    if c == sep
    then [] ∷ split_at_most sep (suc n) s
    else prepend c (split_at_most sep (suc (suc n)) s)

unfoldable pub digits_value : Str → ℕ → Option ℕ
digits_value [] n = some n
digits_value (c ∷ s) n =
    if leb 48 c then (if leb c 57 then digits_value s (n * 10 + (c - 48)) else none) else none

abbrev unsigned : Str → Option ℕ
unsigned [] = none
unsigned (c ∷ s) = digits_value (c ∷ s) 0

abbrev pub version_text : SemverGlib
version_text = record {
  strrstr = strrstr;
  strsplit_max = λ s sep n. split_at_most sep n s;
  strsplit = λ s sep. pieces sep s;
  to_unsigned = unsigned;
}

length-split_at_most : (s : Str) (sep n : ℕ) → length (split_at_most sep n s) ≤ n
unfolding split_at_most
length-split_at_most s sep zero = omega arith
length-split_at_most s sep (suc zero) = omega arith
length-split_at_most [] sep (suc (suc n)) = omega arith
length-split_at_most (c ∷ s) sep (suc (suc n)) = elim (Bool-cases (c == sep)) [
  | inl e ↦ rw e (omega (arith, length-split_at_most s sep (suc n)))
  | inr e ↦
      rw e (longer (split_at_most sep (suc (suc n)) s) (length-split_at_most s sep (suc (suc n))))
]
  where
    longer : (ps : List Str) → length ps ≤ suc (suc n) → length (prepend c ps) ≤ suc (suc n)
    longer [] h = omega arith
    longer (p ∷ ps) h = h

alpha_first : less_equal version_text (codes "1.2-alpha.9") (codes "1.2-alpha.10") ≡ ok true
unfolding less_equal parse version_le fields_le memcmp strrstr split_at_most digits_value pieces
alpha_first = refl

ten_first : less_equal version_text (codes "1.2-alpha.10") (codes "1.2.0") ≡ ok true
unfolding less_equal parse version_le fields_le memcmp strrstr split_at_most digits_value pieces
ten_first = refl

-- A pre-release with a dash in it is refused.
dash_in_pre_release : parse version_text (codes "1.0.0-rc-1") ≡ err number_invalid
unfolding parse strrstr split_at_most digits_value
dash_in_pre_release = refl

less_equal_trans_example : less_equal version_text (codes "1.2-alpha.9") (codes "1.2.0") ≡ ok true
less_equal_trans_example =
    less_equal_trans version_text (codes "1.2-alpha.9") (codes "1.2-alpha.10") (codes "1.2.0")
      alpha_first ten_first

abbrev release : Semver
release = record { version_core = core 1 2 0; pre_release = none; build = none }

abbrev newer : Semver
newer = record { version_core = core 1 10 3; pre_release = none; build = some (codes "build5") }

release_parsed : parse version_text (codes "1.2.0") ≡ ok release
unfolding parse strrstr split_at_most digits_value
release_parsed = refl

newer_parsed : parse version_text (codes "1.10.3+build5") ≡ ok newer
unfolding parse strrstr split_at_most digits_value
newer_parsed = refl

less_equal_total_example :
    (less_equal version_text (codes "1.2.0") (codes "1.10.3+build5") ≡ ok true)
    ⊎ (less_equal version_text (codes "1.10.3+build5") (codes "1.2.0") ≡ ok true)
less_equal_total_example =
    less_equal_total version_text (codes "1.2.0") (codes "1.10.3+build5") release newer
      release_parsed newer_parsed

parse-three_example : parse version_text (codes "1.2.3.4") ≢ err aborted
parse-three_example = parse-three version_text (codes "1.2.3.4") length-split_at_most
