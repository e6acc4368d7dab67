-- ===== src/Examples/Split.antt =====
-- Splitting and trimming of texts, written out.
use docker_yocto_kirkstone_n.Prelude.{
  ℕ, ◌≡◌, ◌≢◌, ◌<◌, refl, ap, ◌∙◌, List, [], ◌∷◌, ◌++◌, Str, join, Lacks, All, leb, ◌==◌,
  if◌then◌else◌, arith,
}
use docker_yocto_kirkstone_n.Glib.{newline, space, Graphic}

abbrev pub prepend : ℕ → List Str → List Str
prepend c [] = (c ∷ []) ∷ []
prepend c (p ∷ ps) = (c ∷ p) ∷ ps

unfoldable pub pieces : ℕ → Str → List Str
pieces sep [] = [] ∷ []
pieces sep (c ∷ s) = let rest = pieces sep s in if c == sep then [] ∷ rest else prepend c rest

unfoldable pub strsplit : Str → ℕ → List Str
unfolding pieces
strsplit [] sep = []
strsplit (c ∷ s) sep = pieces sep (c ∷ s)

pieces_last : (sep : ℕ) (p : Str) → Lacks sep p → pieces sep p ≡ p ∷ []
unfolding pieces
pieces_last sep [] h = refl
pieces_last sep (c ∷ p) h = ground (arith, pieces_last sep p h.1)

pieces_part : (sep : ℕ) (p t : Str) → Lacks sep p → pieces sep (p ++ (sep ∷ t)) ≡ p ∷ pieces sep t
unfolding pieces
pieces_part sep [] t h = ground arith
pieces_part sep (c ∷ p) t h = ground (arith, pieces_part sep p t h.1)

pub pieces-join :
    (sep : ℕ) (p : Str) (ps : List Str)
    → All (Lacks sep) (p ∷ ps)
    → pieces sep (join (p ∷ ps) sep) ≡ p ∷ ps
unfolding join
pieces-join sep p [] (h, hs) = pieces_last sep p h
pieces-join sep p (q ∷ ps) (h, hs) =
    pieces_part sep p (join (q ∷ ps) sep) h ∙ ap (λ r. p ∷ r) (pieces-join sep q ps hs)

strsplit-pieces : (s : Str) (sep : ℕ) → s ≢ [] → strsplit s sep ≡ pieces sep s
unfolding strsplit
strsplit-pieces [] sep h = absurd (h refl)
strsplit-pieces (c ∷ s) sep h = refl

pub strsplit-join :
    (ps : List Str) (sep : ℕ)
    → ps ≢ []
    → join ps sep ≢ []
    → All (Lacks sep) ps
    → strsplit (join ps sep) sep ≡ ps
strsplit-join [] sep h n l = absurd (h refl)
strsplit-join (p ∷ ps) sep h n l = strsplit-pieces _ sep n ∙ pieces-join sep p ps l

prepend-Lacks :
    (sep c : ℕ) (ps : List Str) → c ≢ sep → All (Lacks sep) ps → All (Lacks sep) (prepend c ps)
prepend-Lacks sep c [] h hs = ((h, tt), tt)
prepend-Lacks sep c (p ∷ ps) h (hp, hs) = ((h, hp), hs)

pieces-Lacks : (sep : ℕ) (s : Str) → All (Lacks sep) (pieces sep s)
unfolding pieces
pieces-Lacks sep [] = (tt, tt)
pieces-Lacks sep (c ∷ s) = ground (arith, pieces-Lacks sep s, prepend-Lacks sep c (pieces sep s))

pub strsplit-Lacks : (s : Str) (sep : ℕ) → All (Lacks sep) (strsplit s sep)
unfolding strsplit
strsplit-Lacks [] sep = tt
strsplit-Lacks (c ∷ s) sep = pieces-Lacks sep (c ∷ s)

abbrev pub push : ℕ → Str → Str
push c [] = if leb c space then [] else c ∷ []
push c (d ∷ s) = c ∷ d ∷ s

-- White space at the end is cut off.
unfoldable pub strchomp : Str → Str
strchomp [] = []
strchomp (c ∷ s) = push c (strchomp s)

pub strchomp_graphic : (s : Str) (c : ℕ) → space < c → strchomp (s ++ (c ∷ [])) ≡ s ++ (c ∷ [])
unfolding strchomp
strchomp_graphic [] c h = ground arith
strchomp_graphic (x ∷ []) c h = ground (arith, strchomp_graphic [] c h)
strchomp_graphic (x ∷ y ∷ s) c h = ap (push x) (strchomp_graphic (y ∷ s) c h)

pub strchomp_newline : (s : Str) → strchomp (s ++ (newline ∷ [])) ≡ strchomp s
unfolding strchomp
strchomp_newline [] = refl
strchomp_newline (c ∷ s) = ap (push c) (strchomp_newline s)

abbrev pub drop_last : List Str → List Str
drop_last [] = []
drop_last (p ∷ []) = []
drop_last (p ∷ q ∷ ps) = p ∷ drop_last (q ∷ ps)

-- The lines that end in a line break.
unfoldable pub data_lines : Str → List Str
data_lines s = drop_last (pieces newline s)

pub data_lines_two :
    (a b : Str)
    → All (Lacks newline) (a ∷ b ∷ [])
    → data_lines (a ++ (newline ∷ (b ++ (newline ∷ [])))) ≡ a ∷ b ∷ []
unfolding data_lines
data_lines_two a b (ha, (hb, hs)) = ap drop_last (
    pieces_part newline a (b ++ (newline ∷ [])) ha
    ∙ ap (λ r. a ∷ r) (pieces_part newline b [] hb ∙ ap (λ r. b ∷ r) (pieces_last newline [] tt)))

-- White space at the start is cut off.
unfoldable pub strchug : Str → Str
strchug [] = []
strchug (c ∷ s) = if leb c space then strchug s else c ∷ s

strchomp_all : (s : Str) → Graphic s → strchomp s ≡ s
unfolding strchomp
strchomp_all [] h = refl
strchomp_all (c ∷ []) h = ground arith
strchomp_all (c ∷ d ∷ s) (h, hs) = ap (push c) (strchomp_all (d ∷ s) hs)

strchug_all : (s : Str) → Graphic s → strchug s ≡ s
unfolding strchug
strchug_all [] h = refl
strchug_all (c ∷ s) h = ground arith

unfoldable pub strstrip : Str → Str
unfolding strchug strchomp
strstrip s = strchug (strchomp s)

pub strstrip_line : (s : Str) → Graphic s → strstrip (s ++ (newline ∷ [])) ≡ s
unfolding strstrip
strstrip_line s h = rw (strchomp_newline s, strchomp_all s h) (strchug_all s h)
