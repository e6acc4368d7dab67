-- ===== src/Boot/Env.antt =====
-- An environment block as a tool lists it: lines `<key>=<value>`.
use docker_yocto_kirkstone_n.Prelude.{
  ℕ, ◌≡◌, ◌≢◌, refl, List, [], ◌∷◌, ◌++◌, Option, none, some, Str, codes, str_eq, strip_prefix,
  join, Lacks, All, All-append, if◌then◌else◌, arith, map,
}
use docker_yocto_kirkstone_n.Glib.{newline, Glib, GlibLaws}

abbrev pub Env : Type 0
Env = List (Str × Str)

abbrev pub equals : ℕ
equals = b'='

abbrev pub assignment : Str × Str → Str
assignment (key, value) = key ++ (equals ∷ value)

unfoldable pub lookup_env : Str → Env → Option Str
lookup_env k [] = none
lookup_env k ((j, v) ∷ env) = if str_eq j k then some v else lookup_env k env

-- The value of a variable after assignments that are made one after another.
unfoldable pub assigned : Env → Str → Option Str → Option Str
assigned [] j old = old
assigned ((k, v) ∷ pairs) j old = assigned pairs j (if str_eq k j then some v else old)

-- No `=` in the key and no line break in the entry.
abbrev pub CleanEntry : Str × Str → Type 0
CleanEntry (key, value) = Lacks equals key × Lacks newline key × Lacks newline value

abbrev pub listing : Env → Str
listing env = join (map assignment env ++ ([] ∷ [])) newline

pub strip_assignment :
    (k j v : Str)
    → Lacks equals k
    → Lacks equals j
    → strip_prefix (k ++ codes "=") (assignment (j, v)) ≡ (if str_eq j k then some v else none)
unfolding strip_prefix str_eq
strip_assignment [] [] v hk hj = refl
strip_assignment [] (d ∷ j) v hk hj = ground arith
strip_assignment (c ∷ k) [] v hk hj = ground arith
strip_assignment (c ∷ k) (d ∷ j) v hk hj = ground (arith, strip_assignment k j v)

pub strip_empty : (k : Str) → strip_prefix (k ++ codes "=") [] ≡ none
unfolding strip_prefix
strip_empty [] = refl
strip_empty (c ∷ k) = refl

assignment-Lacks : (e : Str × Str) → CleanEntry e → Lacks newline (assignment e)
assignment-Lacks (k, v) (hk, hn, hv) =
    All-append (λ c. c ≢ newline) k (equals ∷ v) hn (omega arith, hv)

lines-Lacks :
    (env : Env) → All CleanEntry env → All (Lacks newline) (map assignment env ++ ([] ∷ []))
lines-Lacks [] h = (tt, tt)
lines-Lacks (e ∷ env) (h, hs) = (assignment-Lacks e h, lines-Lacks env hs)

assignment-ne-nil : (e : Str × Str) (rest : Str) → assignment e ++ rest ≢ []
assignment-ne-nil ([], v) rest = cc
assignment-ne-nil (c ∷ k, v) rest = cc

listing-ne-nil : (e : Str × Str) (env : Env) → listing (e ∷ env) ≢ []
unfolding join
listing-ne-nil e [] = assignment-ne-nil e _
listing-ne-nil e (e' ∷ env) = assignment-ne-nil e _

-- The lines of a listing that is not empty.
pub strsplit-listing :
    (g : Glib)
    → GlibLaws g
    → (e : Str × Str) (env : Env) → All CleanEntry (e ∷ env)
    → g.strsplit (listing (e ∷ env)) newline ≡ map assignment (e ∷ env) ++ ([] ∷ [])
strsplit-listing g laws e env clean =
    laws.strsplit-join _ newline (cc) (listing-ne-nil e env) (lines-Lacks (e ∷ env) clean)
