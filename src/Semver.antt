-- ===== src/Semver.antt =====
-- kirkstone/local/rauc/src/utils.c: semantic versions. The functions of GLib on text are parameters.
pub mod Order
pub mod Parse
use docker_yocto_kirkstone_n.Prelude.{
  ℕ, Bool, true, false, List, [], ◌∷◌, Option, none, some, Str, ltb, if◌then◌else◌,
}
use docker_yocto_kirkstone_n.Exec.{Result, ok, err, semver_parse, number_invalid, aborted}
use docker_yocto_kirkstone_n.Compare.{Cmp, less, same, greater, memcmp}

pub record SemverGlib : Type 0 where
  -- g_strrstr() of one byte: the text before the last one, and the text behind it
  pub strrstr : Str → ℕ → Option (Str × Str)
  -- g_strsplit() into that many parts at most
  pub strsplit_max : Str → ℕ → ℕ → List Str
  -- g_strsplit() without a limit
  pub strsplit : Str → ℕ → List Str
  -- g_ascii_string_to_unsigned(text, 10, 0, G_MAXUINT64): none is FALSE
  pub to_unsigned : Str → Option ℕ

pub record VersionCore : Type 0 where
  pub major : ℕ
  pub minor : ℕ
  pub patch : ℕ

pub record Semver : Type 0 where
  pub version_core : VersionCore
  pub pre_release : Option Str
  pub build : Option Str

-- What is left of the text, and what is behind the byte.
abbrev pub cut : Str → Option (Str × Str) → Str × Option Str
cut s none = (s, none)
cut s (some (before, behind)) = (before, some behind)

abbrev pub core : ℕ → ℕ → ℕ → VersionCore
core a b c = record { major = a; minor = b; patch = c }

abbrev pub three_numbers : Option ℕ → Option ℕ → Option ℕ → Result VersionCore
three_numbers (some a) (some b) (some c) = ok (core a b c)
three_numbers _ _ _ = err number_invalid

-- What a round of the loop over the fields returns, or what the next rounds return.
abbrev pub by_field : Option ℕ → Option ℕ → Cmp → Bool → Bool
by_field (some a) (some b) cmp rest = if ltb a b then true else if ltb b a then false else rest
by_field (some a) none cmp rest = true
by_field none (some b) cmp rest = false
by_field none none less rest = true
by_field none none same rest = rest
by_field none none greater rest = false

-- A round of the loop over the version cores.
abbrev pub by_number : ℕ → ℕ → Bool → Bool
by_number a b rest = if ltb a b then true else if ltb b a then false else rest

module _ (g : SemverGlib) where
  -- The loop over the parts; missing ones stay 0. A fourth part would be written behind the array.
  abbrev pub core_of : List Str → Result VersionCore
  core_of [] = err semver_parse
  core_of (a ∷ []) = three_numbers (g.to_unsigned a) (some 0) (some 0)
  core_of (a ∷ b ∷ []) = three_numbers (g.to_unsigned a) (g.to_unsigned b) (some 0)
  core_of (a ∷ b ∷ c ∷ []) = three_numbers (g.to_unsigned a) (g.to_unsigned b) (g.to_unsigned c)
  core_of (a ∷ b ∷ c ∷ d ∷ parts) = err aborted

  abbrev pub with_labels : Result VersionCore → Option Str → Option Str → Result Semver
  with_labels (err e) pre build = err e
  with_labels (ok version) pre build =
      ok (record { version_core = version; pre_release = pre; build = build })

  abbrev pub without_build : Str → Option Str → Result Semver
  without_build s build =
      let (rest, pre) = cut s (g.strrstr s b'-') in
      with_labels (core_of (g.strsplit_max rest b'.' 3)) pre build

  unfoldable pub parse : Str → Result Semver
  parse version_string =
      let (rest, build) = cut version_string (g.strrstr version_string b'+') in
      without_build rest build

  unfoldable pub fields_le : List Str → List Str → Bool
  unfolding memcmp
  fields_le [] [] = true
  fields_le [] (b ∷ bs) = true
  fields_le (a ∷ xs) [] = false
  fields_le (a ∷ xs) (b ∷ bs) =
      by_field (g.to_unsigned a) (g.to_unsigned b) (memcmp a b) (fields_le xs bs)

  abbrev pub pre_release_le : Option Str → Option Str → Bool
  pre_release_le none none = true
  pre_release_le none (some b) = false
  pre_release_le (some a) none = true
  pre_release_le (some a) (some b) = fields_le (g.strsplit a b'.') (g.strsplit b b'.')

  unfoldable pub version_le : Semver → Semver → Bool
  unfolding fields_le
  version_le a b = by_number a.version_core.major b.version_core.major (
      by_number a.version_core.minor b.version_core.minor (
        by_number a.version_core.patch b.version_core.patch
          (pre_release_le a.pre_release b.pre_release)))

  abbrev pub compared : Result Semver → Result Semver → Result Bool
  compared (err e) b = err e
  compared (ok a) (err e) = err e
  compared (ok a) (ok b) = ok (version_le a b)

  unfoldable pub less_equal : Str → Str → Result Bool
  unfolding parse version_le
  less_equal version_string_a version_string_b =
      compared (parse version_string_a) (parse version_string_b)
