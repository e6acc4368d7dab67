-- ===== src/Semver/Parse.antt =====
-- What r_semver_parse writes.
use docker_yocto_kirkstone_n.Prelude.{
  ℕ, ◌≤◌, ◌≢◌, ap, List, [], ◌∷◌, Option, none, some, Str, length, arith,
}
use docker_yocto_kirkstone_n.Exec.{Result, ok, err, aborted}
use docker_yocto_kirkstone_n.Semver.{
  SemverGlib, VersionCore, Semver, three_numbers, core_of, with_labels, parse,
}

module _ (g : SemverGlib) where
  three_numbers_lem : (a b c : Option ℕ) → three_numbers a b c ≢ err aborted
  three_numbers_lem none b c h = cc
  three_numbers_lem (some a) none c h = cc
  three_numbers_lem (some a) (some b) none h = cc
  three_numbers_lem (some a) (some b) (some c) h = cc

  core_of_lem : (parts : List Str) → length parts ≤ 3 → core_of g parts ≢ err aborted
  core_of_lem [] short h = cc
  core_of_lem (a ∷ []) short h = three_numbers_lem (g.to_unsigned a) (some 0) (some 0) h
  core_of_lem (a ∷ b ∷ []) short h =
      three_numbers_lem (g.to_unsigned a) (g.to_unsigned b) (some 0) h
  core_of_lem (a ∷ b ∷ c ∷ []) short h =
      three_numbers_lem (g.to_unsigned a) (g.to_unsigned b) (g.to_unsigned c) h
  core_of_lem (a ∷ b ∷ c ∷ d ∷ parts) short h = absurd (omega arith)

  with_labels_lem :
      (r : Result VersionCore) (pre build : Option Str)
      → r ≢ err aborted
      → with_labels g r pre build ≢ err aborted
  with_labels_lem (err e) pre build h q = h (ap only_core q)
    where
      only_core : Result Semver → Result VersionCore
      only_core (err k) = err k
      only_core (ok v) = ok v.version_core
  with_labels_lem (ok v) pre build h q = cc

  -- Where g_strsplit keeps to its limit, r_semver_parse writes no more than the three numbers of
  -- `version_core`, whatever the text.
  pub parse-three :
      (version_string : Str)
      → ((s : Str) (separator limit : ℕ) → length (g.strsplit_max s separator limit) ≤ limit)
      → parse g version_string ≢ err aborted
  unfolding parse
  parse-three version_string limited =
      with_labels_lem _ _ _ (core_of_lem (g.strsplit_max _ b'.' 3) (limited _ b'.' 3))
