-- ===== src/Examples/Glob.antt =====
-- g_pattern_match_simple() written out.
use docker_yocto_kirkstone_n.Prelude.{
  ℕ, ◌≡◌, refl, Bool, true, false, not, ◌&&◌, ◌||◌, [], ◌∷◌, Str, ◌==◌, ==_iff, if◌then◌else◌,
  codes,
}
use docker_yocto_kirkstone_n.Update.Shield.{is_literal, PatternLaws}

unfoldable pub glob : Str → Str → Bool
glob [] [] = true
glob [] (d ∷ s) = false
glob (c ∷ p) [] = c == b'*' && glob p []
glob (c ∷ p) (d ∷ s) =
    let here = glob p (d ∷ s) in
    let further = glob (c ∷ p) s in
    let next = glob p s in if c == b'*' then here || further else (c == b'?' || c == d) && next

glob_star : (s : Str) → glob (codes "*") s ≡ true
unfolding glob
glob_star [] = refl
glob_star (d ∷ s) = glob_star s

plain_char :
    (c : ℕ) (l : Bool)
    → (not (c == b'*') && not (c == b'?') && l) ≡ true
    → ((c == b'*') ≡ false) × ((c == b'?') ≡ false) × (l ≡ true)
plain_char c l h = by_tests (c == b'*') (c == b'?') h
  where
    by_tests : (a b : Bool) → (not a && not b && l) ≡ true → (a ≡ false) × (b ≡ false) × (l ≡ true)
    by_tests true b e = cc
    by_tests false true e = cc
    by_tests false false e = (refl, refl, e)

literal_char :
    (c d : ℕ) (p s : Str) (e : Bool)
    → (c == d) ≡ e
    → (glob p s ≡ true → p ≡ s)
    → (e && glob p s) ≡ true
    → ◌≡◌ {A = Str} (c ∷ p) (d ∷ s)
literal_char c d p s true e rest h = let same = (==_iff c d).0 e in let tail = rest h in cc
literal_char c d p s false e rest h = cc

glob_literal : (p s : Str) → is_literal p ≡ true → glob p s ≡ true → p ≡ s
unfolding glob
glob_literal [] [] l h = refl
glob_literal [] (d ∷ s) l h = cc
glob_literal (c ∷ p) [] l h = let (a, b, r) = plain_char c (is_literal p) l in cc (rw a at h)
glob_literal (c ∷ p) (d ∷ s) l h =
    let (a, b, r) = plain_char c (is_literal p) l in
    literal_char c d p s (c == d) refl (glob_literal p s r) (rw (a, b) at h)

glob_same : (p : Str) → is_literal p ≡ true → glob p p ≡ true
unfolding glob
glob_same [] l = refl
glob_same (c ∷ p) l =
    let (a, b, r) = plain_char c (is_literal p) l in rw (a, b, (==_iff c c).1 refl) (glob_same p r)

pub glob_laws : PatternLaws glob
glob_laws = record {
  pattern_star = glob_star;
  pattern_literal = glob_literal;
  pattern_same = glob_same;
}
