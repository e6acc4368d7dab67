-- ===== src/Compare.antt =====
-- Three-way comparisons, as memcmp() and strcmp() make them.
pub mod Order
use docker_yocto_kirkstone_n.Prelude.{ℕ, Bool, true, false, List, [], ◌∷◌, Str, ltb, if◌then◌else◌}

pub data Cmp : Type 0 where
  less same greater : Cmp

-- memcmp() of two blocks of the same length, and strcmp() of two texts.
unfoldable pub memcmp : Str → Str → Cmp
memcmp [] [] = same
memcmp [] (d ∷ t) = less
memcmp (c ∷ s) [] = greater
memcmp (c ∷ s) (d ∷ t) = if ltb c d then less else if ltb d c then greater else memcmp s t

abbrev pub nat_cmp : ℕ → ℕ → Cmp
nat_cmp a b = if ltb a b then less else if ltb b a then greater else same

-- A first comparison decides, and a second one where it does not.
abbrev pub follow : Cmp → Cmp → Cmp
follow less r = less
follow same r = r
follow greater r = greater

abbrev pub at_most : Cmp → Bool
at_most less = true
at_most same = true
at_most greater = false

-- Lists compared element by element; a list comes before those that it begins.
unfoldable pub lex : {A : Type 0} → (A → A → Cmp) → List A → List A → Cmp
lex cmp [] [] = same
lex cmp [] (y ∷ ys) = less
lex cmp (x ∷ xs) [] = greater
lex cmp (x ∷ xs) (y ∷ ys) = follow (cmp x y) (lex cmp xs ys)
