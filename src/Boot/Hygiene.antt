-- ===== src/Boot/Hygiene.antt =====
-- Boot names that can stand in variable names and in the boot order, and variables that differ.
use docker_yocto_kirkstone_n.Prelude.{
  ℕ, ◌<◌, ◌≡◌, ◌≢◌, refl, sym, ap, ◌∙◌, List, [], ◌∷◌, ◌++◌, append_assoc, Option, none, some, Str,
  codes, Lacks, All, All-append, join, arith, str_eq, str_eq_iff, Bool, false, true,
}
use mathlib.Core.List.{append_cancel_right}
use docker_yocto_kirkstone_n.Glib.{Glib, GlibLaws, space, Graphic}
use docker_yocto_kirkstone_n.Slot.{RaucSlot, same}
use docker_yocto_kirkstone_n.Boot.Env.{equals}
use docker_yocto_kirkstone_n.Boot.Names.{push_name, other_bootnames}

-- A boot name is not empty and holds no white space, control character or `=`. The configuration
-- refuses an empty name, a space and a tab.
pub record BootName (name : Str) : Type 0 where
  pub graphic : Graphic name
  pub no_equals : Lacks equals name
  pub not_empty : name ≢ []

abbrev pub OptBootName : Option Str → Type 0
OptBootName none = Unit
OptBootName (some name) = BootName name

-- Every boot name of the table is one.
abbrev pub BootNames : List RaucSlot → Type 0
BootNames = All (λ s. OptBootName s.bootname)

pub Graphic-Lacks : (s : Str) (b : ℕ) → b < 33 → Graphic s → Lacks b s
Graphic-Lacks [] b h hs = tt
Graphic-Lacks (c ∷ s) b h (hc, hs) = (λ e. absurd (omega arith), Graphic-Lacks s b h hs)

last_byte : Str → ℕ
last_byte [] = 0
last_byte (c ∷ []) = c
last_byte (c ∷ d ∷ s) = last_byte (d ∷ s)

last_byte-append : (a : Str) (c : ℕ) (s : Str) → last_byte (a ++ (c ∷ s)) ≡ last_byte (c ∷ s)
unfolding last_byte
last_byte-append [] c s = refl
last_byte-append (x ∷ []) c s = refl
last_byte-append (x ∷ y ∷ a) c s = last_byte-append (y ∷ a) c s

-- Texts with different last bytes differ, whatever stands before.
ne_of_last :
    (a b : Str) (c d : ℕ) (s t : Str)
    → last_byte (c ∷ s) ≢ last_byte (d ∷ t)
    → a ++ (c ∷ s) ≢ b ++ (d ∷ t)
ne_of_last a b c d s t h e =
    h (sym (last_byte-append a c s) ∙ ap last_byte e ∙ last_byte-append b d t)

pub ok-ne-try : (a b : Str) → a ++ codes "_OK" ≢ b ++ codes "_TRY"
unfolding last_byte
ok-ne-try a b = ne_of_last a b _ _ _ _ (omega arith)

pub ok-ne-order : (a : Str) → a ++ codes "_OK" ≢ codes "ORDER"
unfolding last_byte
ok-ne-order a = ne_of_last a [] _ _ _ _ (omega arith)

pub try-ne-order : (a : Str) → a ++ codes "_TRY" ≢ codes "ORDER"
unfolding last_byte
try-ne-order a = ne_of_last a [] _ _ _ _ (omega arith)

pub left-ne-order : (a : Str) → a ++ codes "_LEFT" ≢ codes "BOOT_ORDER"
unfolding last_byte
left-ne-order a = ne_of_last a (codes "BOOT_") _ _ _ _ (omega arith)

pub attempts-ne-priority : (a b : Str) → a ++ codes ".remaining_attempts" ≢ b ++ codes ".priority"
unfolding last_byte
attempts-ne-priority a b = ne_of_last a b _ _ _ _ (omega arith)

pub suffix-ne : (a b s : Str) → a ≢ b → a ++ s ≢ b ++ s
suffix-ne a b s h e = h (append_cancel_right a b s e)

pub str_eq-false : (s t : Str) → s ≢ t → str_eq s t ≡ false
str_eq-false s t h = ground (arith, str_eq_iff s t)

pub str_eq_self : (s : Str) → str_eq s s ≡ true
str_eq_self s = (str_eq_iff s s).1 refl

-- A text that ends in a graphic byte.
abbrev pub EndsGraphic : Str → Type 0
EndsGraphic s = (front : Str) × (c : ℕ) × (space < c) × (s ≡ front ++ (c ∷ []))

pub Graphic-EndsGraphic : (s : Str) → s ≢ [] → Graphic s → EndsGraphic s
Graphic-EndsGraphic [] h hs = absurd (h refl)
Graphic-EndsGraphic (c ∷ []) h (hc, hs) = ([], c, hc, refl)
Graphic-EndsGraphic (c ∷ d ∷ s) h (hc, hs) =
    let (front, e, he, eq) = Graphic-EndsGraphic (d ∷ s) (cc) hs in
    (c ∷ front, e, he, ap (λ r. c ∷ r) eq)

pub EndsGraphic-append : (a s : Str) → EndsGraphic s → EndsGraphic (a ++ s)
EndsGraphic-append a s (front, c, hc, eq) =
    (a ++ front, c, hc, ap (λ r. a ++ r) eq ∙ sym (append_assoc a front (c ∷ [])))

pub EndsGraphic-ne-nil : (s : Str) → EndsGraphic s → s ≢ []
EndsGraphic-ne-nil s (front, c, hc, eq) e = ends front (sym eq ∙ e)
  where
    ends : (f : Str) → f ++ (c ∷ []) ≢ []
    ends [] h = cc
    ends (x ∷ f) h = cc

-- The boot order keeps its end when white space is cut off.
pub strchomp_ends : (g : Glib) → GlibLaws g → (s : Str) → EndsGraphic s → g.strchomp s ≡ s
strchomp_ends g laws s (front, c, hc, eq) =
    ap g.strchomp eq ∙ laws.strchomp_graphic front c hc ∙ sym eq

pub join-EndsGraphic :
    (b : Str) (bs : List Str) → All BootName (b ∷ bs) → EndsGraphic (join (b ∷ bs) space)
unfolding join
join-EndsGraphic b [] (h, hs) = Graphic-EndsGraphic b h.not_empty h.graphic
join-EndsGraphic b (x ∷ bs) (h, hs) =
    EndsGraphic-append b _ (EndsGraphic-append (space ∷ []) _ (join-EndsGraphic x bs hs))

pub names-Lacks : (bs : List Str) (b : ℕ) → b < 33 → All BootName bs → All (Lacks b) bs
names-Lacks [] b hb h = tt
names-Lacks (x ∷ bs) b hb (h, hs) = (Graphic-Lacks x b hb h.graphic, names-Lacks bs b hb hs)

push_name-BootName :
    (o : Option Str) (skip : Bool) (rest : List Str)
    → OptBootName o
    → All BootName rest
    → All BootName (push_name o skip rest)
push_name-BootName none skip rest h hs = hs
push_name-BootName (some name) true rest h hs = hs
push_name-BootName (some name) false rest h hs = (h, hs)

pub other_bootnames-BootName :
    (slot : RaucSlot) (slots : List RaucSlot)
    → BootNames slots
    → All BootName (other_bootnames slot slots)
unfolding other_bootnames
other_bootnames-BootName slot [] h = tt
other_bootnames-BootName slot (s ∷ slots) (h, hs) =
    push_name-BootName s.bootname (same s slot) _ h (other_bootnames-BootName slot slots hs)

-- A boot order of boot names is read back as those names.
pub strsplit-order :
    (g : Glib)
    → GlibLaws g
    → (b : Str) (bs : List Str) → All BootName (b ∷ bs)
    → g.strsplit (g.strchomp (join (b ∷ bs) space)) space ≡ b ∷ bs
strsplit-order g laws b bs h =
    ap (λ t. g.strsplit t space) (strchomp_ends g laws _ (join-EndsGraphic b bs h))
    ∙ laws.strsplit-join (b ∷ bs) space (cc) (EndsGraphic-ne-nil _ (join-EndsGraphic b bs h))
        (names-Lacks (b ∷ bs) space (omega arith) h)

pub join-Lacks : (bs : List Str) (b : ℕ) → space ≢ b → All (Lacks b) bs → Lacks b (join bs space)
unfolding join
join-Lacks [] b h hs = tt
join-Lacks (x ∷ []) b h (hx, hs) = hx
join-Lacks (x ∷ y ∷ bs) b h (hx, hs) =
    All-append (λ c. c ≢ b) x _ hx (h, join-Lacks (y ∷ bs) b h hs)
