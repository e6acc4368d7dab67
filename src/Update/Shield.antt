-- ===== src/Update/Shield.antt =====
-- The handlers that a slot of a given type can get (get_update_handler of
-- kirkstone/local/rauc/src/update_handler.c).
use docker_yocto_kirkstone_n.Prelude.{
  ◌≡◌, ◌≢◌, refl, sym, ap, ◌∙◌, inl, inr, Bool, true, false, not, ◌&&◌, ◌||◌, List, [], ◌∷◌, Option,
  none, some, Str, codes, str_eq, str_eq_iff, Bool-cases, In, All, All-In, if◌then◌else◌, arith,
  ◌==◌,
}
use mathlib.Core.Path.{subst}
use docker_yocto_kirkstone_n.Exec.{ok}
use docker_yocto_kirkstone_n.Slot.{RaucSlot}
use docker_yocto_kirkstone_n.Manifest.{RaucImage}
use docker_yocto_kirkstone_n.Update.{
  ImgToSlotHandler, img_to_raw_handler, hook_install_handler, RaucUpdatePair, Features, updatepairs,
  with_handler, find_handler, find_for, get_update_handler,
}

abbrev star : Str
star = codes "*"

-- No character of the pattern has a meaning of its own.
abbrev pub is_literal : Str → Bool
is_literal [] = true
is_literal (c ∷ s) = not (c == b'*') && not (c == b'?') && is_literal s

-- The manual of g_pattern_match_simple.
pub record PatternLaws (pattern_match : Str → Str → Bool) : Type 0 where
  pub pattern_star : (s : Str) → pattern_match (codes "*") s ≡ true
  pub pattern_literal : (p s : Str) → is_literal p ≡ true → pattern_match p s ≡ true → p ≡ s
  pub pattern_same : (p : Str) → is_literal p ≡ true → pattern_match p p ≡ true

abbrev not_raw : Option ImgToSlotHandler → Bool
not_raw (some img_to_raw_handler) = false
not_raw _ = true

-- A slot type that gets no raw copy from the table: no pair before one for all images of that type
-- gives it, and that one neither.
unfoldable pub shielded : Str → List RaucUpdatePair → Bool
shielded dest [] = true
shielded dest (u ∷ pairs) =
    let rest = shielded dest pairs in
    (not_raw u.handler || (is_literal u.dest && not (str_eq u.dest dest)))
    && (rest || (str_eq u.src star && str_eq u.dest dest))

module _ (pattern_match : Str → Str → Bool) (laws : PatternLaws pattern_match) (src dest : Str)
    (literal : is_literal dest ≡ true) where
  -- A pair that matches is not a raw copy.
  matching :
      (u : RaucUpdatePair)
      → (not_raw u.handler || (is_literal u.dest && not (str_eq u.dest dest))) ≡ true
      → pattern_match u.dest dest ≡ true
      → not_raw u.handler ≡ true
  matching u h m = elim (Bool-cases (not_raw u.handler)) [
    | inl e ↦ e
    | inr e ↦ absurd (differs (is_literal u.dest) (str_eq u.dest dest) refl refl (rw e at h))
  ]
    where
      differs :
          (l q : Bool) → is_literal u.dest ≡ l → str_eq u.dest dest ≡ q → (l && not q) ≡ true → ⊥
      differs false q e f x = cc
      differs true true e f x = cc
      differs true false e f x =
          let same = (str_eq_iff u.dest dest).1 (laws.pattern_literal u.dest dest e m) in cc

  -- A pair for all images of the type matches.
  catches :
      (u : RaucUpdatePair)
      → (str_eq u.src star && str_eq u.dest dest) ≡ true
      → (pattern_match u.src src && pattern_match u.dest dest) ≡ true
  catches u h = by_tests (str_eq u.src star) (str_eq u.dest dest) refl refl h
    where
      by_tests :
          (a b : Bool)
          → str_eq u.src star ≡ a
          → str_eq u.dest dest ≡ b
          → (a && b) ≡ true
          → (pattern_match u.src src && pattern_match u.dest dest) ≡ true
      by_tests false b e f x = cc
      by_tests true false e f x = cc
      by_tests true true e f x =
          rw
            (
              (str_eq_iff u.src star).0 e,
              (str_eq_iff u.dest dest).0 f,
              laws.pattern_star src,
              laws.pattern_same dest literal,
            )
            refl

  find_handler-shielded :
      (pairs : List RaucUpdatePair)
      → shielded dest pairs ≡ true
      → not_raw (find_handler pattern_match pairs src dest) ≡ true
  unfolding shielded find_handler
  find_handler-shielded [] h = refl
  find_handler-shielded (u ∷ pairs) h =
      let (own, rest) = both _ _ h in
      by_match (find_handler-shielded pairs) (pattern_match u.src src) (pattern_match u.dest dest)
        refl refl own rest
    where
      both : (a b : Bool) → (a && b) ≡ true → (a ≡ true) × (b ≡ true)
      both a b e = ground arith

      either : (a b : Bool) → (a || b) ≡ true → b ≡ false → a ≡ true
      either a b e f = ground arith

      by_match :
          (shielded dest pairs ≡ true → not_raw (find_handler pattern_match pairs src dest) ≡ true)
          → (s d : Bool) → pattern_match u.src src ≡ s
          → pattern_match u.dest dest ≡ d
          → (not_raw u.handler || (is_literal u.dest && not (str_eq u.dest dest))) ≡ true
          → (shielded dest pairs || (str_eq u.src star && str_eq u.dest dest)) ≡ true
          → not_raw (if s && d then u.handler else find_handler pattern_match pairs src dest) ≡ true
      by_match later s d es ed own rest = elim (Bool-cases (s && d)) [
        | inl e ↦ rw e (matching u own (ed ∙ (both s d e).1))
        | inr e ↦
            rw e (later (either _ _ rest (missed (str_eq u.src star && str_eq u.dest dest) refl e)))
      ]
        where
          missed :
              (b : Bool)
              → (str_eq u.src star && str_eq u.dest dest) ≡ b
              → (s && d) ≡ false
              → (str_eq u.src star && str_eq u.dest dest) ≡ false
          missed false e f = e
          missed true e f = let c = catches u e in cc

abbrev boot_types : List Str
boot_types =
    codes "boot-emmc"
    ∷ codes "boot-mbr-switch"
    ∷ codes "boot-gpt-switch"
    ∷ codes "boot-raw-fallback"
    ∷ []

abbrev Shielded : Features → Str → Type 0
Shielded f dest = (is_literal dest ≡ true) × (shielded dest (updatepairs f) ≡ true)

table-Shielded : (f : Features) → All (Shielded f) boot_types
unfolding shielded updatepairs str_eq
table-Shielded f = by_features f.emmc_boot f.gpt
  where
    by_features :
        (emmc gpt : Bool) → All (Shielded (record { emmc_boot = emmc; gpt = gpt })) boot_types
    by_features true true = ((refl, refl), ((refl, refl), ((refl, refl), ((refl, refl), tt))))
    by_features true false = ((refl, refl), ((refl, refl), ((refl, refl), ((refl, refl), tt))))
    by_features false true = ((refl, refl), ((refl, refl), ((refl, refl), ((refl, refl), tt))))
    by_features false false = ((refl, refl), ((refl, refl), ((refl, refl), ((refl, refl), tt))))

raw_or_not :
    (handler : ImgToSlotHandler) → not_raw (some handler) ≡ true → handler ≢ img_to_raw_handler
raw_or_not handler h e = let shown = ap (λ x. not_raw (some x)) (sym e) in cc

module _ (pattern_match : Str → Str → Bool) (laws : PatternLaws pattern_match) where
  -- No image that comes without an install hook is copied raw to a slot of a type for a boot
  -- partition: get_update_handler gives a slot of type boot-emmc, boot-mbr-switch, boot-gpt-switch
  -- or boot-raw-fallback another handler or none, whatever the image's name is and whichever
  -- features the build turns on.
  pub get_update_handler-not_raw :
      (f : Features) (mfimage : RaucImage) (dest_slot : RaucSlot) (handler : ImgToSlotHandler)
      → In dest_slot.type boot_types
      → get_update_handler pattern_match f mfimage dest_slot ≡ ok handler
      → handler ≢ img_to_raw_handler
  unfolding get_update_handler
  get_update_handler-not_raw f mfimage dest_slot handler m h = by_hook mfimage.hooks.install h
    where
      found :
          (o : Option ImgToSlotHandler)
          → not_raw o ≡ true
          → with_handler o ≡ ok handler
          → handler ≢ img_to_raw_handler
      found none n e = cc
      found (some x) n e =
          raw_or_not handler (subst (λ y. not_raw (some y) ≡ true) (the_handler e) n)
        where
          the_handler : ok x ≡ ok handler → x ≡ handler
          the_handler q = cc

      guarded : Shielded f dest_slot.type
      guarded = All-In (Shielded f) boot_types (table-Shielded f) m

      by_name : (name : Option Str) → not_raw (find_for pattern_match f name dest_slot.type) ≡ true
      by_name none = refl
      by_name (some src) =
          find_handler-shielded pattern_match laws src dest_slot.type guarded.0 (updatepairs f)
            guarded.1

      by_hook :
          (hook : Bool)
          → (if hook
              then ok hook_install_handler
              else with_handler (find_for pattern_match f mfimage.filename dest_slot.type))
            ≡ ok handler
          → handler ≢ img_to_raw_handler
      by_hook true e =
          raw_or_not handler (subst (λ y. not_raw (some y) ≡ true) (the_handler e) refl)
        where
          the_handler : ok hook_install_handler ≡ ok handler → hook_install_handler ≡ handler
          the_handler q = cc
      by_hook false e =
          found (find_for pattern_match f mfimage.filename dest_slot.type)
            (by_name mfimage.filename) e
