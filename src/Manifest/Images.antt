-- ===== src/Manifest/Images.antt =====
-- What the checks of kirkstone/local/rauc/src/manifest.c establish for each image.
use docker_yocto_kirkstone_n.Prelude.{
  ◌≡◌, refl, sym, ap, ◌∙◌, ◌⊎◌, inl, inr, Bool, true, false, not, List, [], ◌∷◌, Option, none, some,
  Str, is_some, pos, is_negative, All, ℕ, length, ◌==◌, ◌||◌, arith,
}
use mathlib.Core.Path.{subst}
use docker_yocto_kirkstone_n.Exec.{Result, ok, err, for_each_element, ◌>>◌, fail_if}
use docker_yocto_kirkstone_n.Exec.Accepts.{
  Accepts, Pairwise, >>-Accepts, fail_if-Accepts, for_each_element-Accepts, for_each_element-All,
}
use docker_yocto_kirkstone_n.Exec.{manifest_check}
use docker_yocto_kirkstone_n.Slot.{GChecksumType, sha256}
use docker_yocto_kirkstone_n.Manifest.{RaucImage, RaucManifest}
use docker_yocto_kirkstone_n.Manifest.Check.{
  is_sha256, settle_size, missing_converted, check_named_image, check_if_named, put_images,
  check_bundled_image, check_manifest_bundled, images_have_hooks,
}

-- There are no converters, or as many outputs as converters.
abbrev pub Converted : Option (List Str) → Option (List Str) → Type 0
Converted convert converted =
    (convert ≡ none)
    ⊎ ((sources : List Str) × (outputs : List Str) × (convert ≡ some sources)
        × (converted ≡ some outputs)
        × (length sources ≡ length outputs))

missing-Converted :
    (convert converted : Option (List Str))
    → missing_converted convert converted ≡ false
    → Converted convert converted
missing-Converted none converted h = inl refl
missing-Converted (some sources) none h = cc
missing-Converted (some sources) (some outputs) h =
    inr (sources, outputs, refl, refl, same_length (length sources) (length outputs) h)
  where
    same_length : (m n : ℕ) → not (m == n) ≡ false → m ≡ n
    same_length m n e = ground arith

Converted-missing :
    (convert converted : Option (List Str))
    → Converted convert converted
    → missing_converted convert converted ≡ false
Converted-missing convert converted (inl e) = rw e refl
Converted-missing convert converted (inr (sources, outputs, e, f, l)) =
    rw (e, f) (same_length (length sources) (length outputs) l)
  where
    same_length : (m n : ℕ) → m ≡ n → not (m == n) ≡ false
    same_length m n q = ground arith

-- The image has a digest, a size and an output for each converter.
abbrev pub Complete : RaucImage → Type 0
Complete image =
    (image.checksum.type ≡ sha256)
    × (is_some image.checksum.digest ≡ true)
    × (is_negative image.checksum.size ≡ false)
    × Converted image.convert image.converted

-- A file of the bundle that is complete; an image without a file has nothing to be checked.
abbrev pub Digested : RaucImage → Type 0
Digested image = (image.filename ≡ none) ⊎ Complete image

-- The second image is the first, or the first with the size 0 where an install hook did without.
abbrev pub Settled : RaucImage → RaucImage → Type 0
Settled a b =
    (a ≡ b)
    ⊎ ((a.hooks.install ≡ true)
        × (is_negative a.checksum.size ≡ true)
        × (b ≡ record a { checksum = record (a.checksum) { size = pos 0 } }))

type_sha256 : (t : GChecksumType) → not (is_sha256 t) ≡ false → t ≡ sha256
type_sha256 sha256 h = refl
type_sha256 GChecksumType.md5 h = cc
type_sha256 GChecksumType.sha1 h = cc
type_sha256 GChecksumType.sha512 h = cc
type_sha256 GChecksumType.sha384 h = cc

not-false : (b : Bool) → not b ≡ false → b ≡ true
not-false true h = refl
not-false false h = cc

abbrev SizeSettled : RaucImage → RaucImage → Type 0
SizeSettled a b =
    (is_negative b.checksum.size ≡ false)
    × Settled a b
    × (b.checksum.type ≡ a.checksum.type)
    × (b.checksum.digest ≡ a.checksum.digest)
    × (b.filename ≡ a.filename)
    × (b.convert ≡ a.convert)
    × (b.converted ≡ a.converted)

settled :
    (negative hook : Bool) (a b : RaucImage)
    → is_negative a.checksum.size ≡ negative
    → a.hooks.install ≡ hook
    → Accepts (settle_size negative hook) a b
    → SizeSettled a b
settled false hook a b n i h =
    rw (sym (ap (λ r. r.1) h)) (n, inl refl, refl, refl, refl, refl, refl)
settled true false a b n i h = cc
settled true true a b n i h =
    rw (sym (ap (λ r. r.1) h)) (refl, inr (i, n, refl), refl, refl, refl, refl, refl)

named_image : (a b : RaucImage) → Accepts check_named_image a b → Complete b × Settled a b
named_image a b h =
    let typed = fail_if (not (is_sha256 a.checksum.type)) manifest_check in
    let digested = fail_if (not (is_some a.checksum.digest)) manifest_check in
    let sized = settle_size (is_negative a.checksum.size) a.hooks.install in
    let converted = fail_if (missing_converted a.convert a.converted) manifest_check in
    let (s3, h3, h4) = >>-Accepts (typed >> digested >> sized) converted a b h in
    let (s2, h2, hs) = >>-Accepts (typed >> digested) sized a s3 h3 in
    let (s1, h0, h1) = >>-Accepts typed digested a s2 h2 in
    let (e0, q0) = fail_if-Accepts (not (is_sha256 a.checksum.type)) manifest_check a s1 h0 in
    let (e1, q1) = fail_if-Accepts (not (is_some a.checksum.digest)) manifest_check s1 s2 h1 in
    let (e3, q3) =
      fail_if-Accepts (missing_converted a.convert a.converted) manifest_check s3 b h4 in
    complete a b e0 e1 e3 (
      settled (is_negative a.checksum.size) a.hooks.install a b refl refl
        (from_same a s2 s3 b (sym (q0 ∙ q1)) q3 hs))
  where
    from_same :
        (x x' y y' : RaucImage)
        → x' ≡ x
        → y ≡ y'
        → Accepts (settle_size (is_negative x.checksum.size) x.hooks.install) x' y
        → Accepts (settle_size (is_negative x.checksum.size) x.hooks.install) x y'
    from_same x x' y y' q r p =
        subst (λ z. Accepts (settle_size (is_negative x.checksum.size) x.hooks.install) z y') q
          (subst (λ z. Accepts (settle_size (is_negative x.checksum.size) x.hooks.install) x' z) r
            p)

    complete :
        (a b : RaucImage)
        → not (is_sha256 a.checksum.type) ≡ false
        → not (is_some a.checksum.digest) ≡ false
        → missing_converted a.convert a.converted ≡ false
        → SizeSettled a b
        → Complete b × Settled a b
    complete a b t d m (n, s, et, ed, ef, ec, eo) =
        ((et ∙ type_sha256 _ t, ap is_some ed ∙ not-false _ d, n, moved), s)
      where
        moved : Converted b.convert b.converted
        moved = missing-Converted b.convert b.converted (rw (ec, eo) m)

bundled_image : (a b : RaucImage) → Accepts check_bundled_image a b → Digested b × Settled a b
unfolding check_bundled_image
bundled_image a b h = by_name a.filename refl h
  where
    by_name :
        (name : Option Str)
        → a.filename ≡ name
        → Accepts (check_if_named name) a b
        → Digested b × Settled a b
    by_name none e h = (inl (sym (ap (λ r. r.1.filename) h) ∙ e), inl (ap (λ r. r.1) h))
    by_name (some name) e h = let (c, s) = named_image a b h in (inr c, s)

-- An image that is complete passes as it is.
bundled_image-Digested : (a : RaucImage) → Digested a → Accepts check_bundled_image a a
unfolding check_bundled_image
bundled_image-Digested a (inl e) = rw e refl
bundled_image-Digested a (inr (t, d, n, m)) = by_name a.filename
  where
    passes : Accepts check_named_image a a
    passes = rw (t, d, n, Converted-missing a.convert a.converted m) refl

    by_name : (name : Option Str) → Accepts (check_if_named name) a a
    by_name none = refl
    by_name (some name) = passes

pub bundled_images :
    (mf mf' : RaucManifest)
    → Accepts check_manifest_bundled mf mf'
    → All Digested mf'.images
      × Pairwise Settled mf.images mf'.images
      × (mf' ≡ record mf { images = mf'.images })
unfolding check_manifest_bundled
bundled_images mf mf' h = from_loop (for_each_element check_bundled_image mf.images) refl h
  where
    from_loop :
        (r : Result (Unit {0}) × List RaucImage)
        → for_each_element check_bundled_image mf.images ≡ r
        → put_images mf r ≡ (ok tt, mf')
        → All Digested mf'.images
          × Pairwise Settled mf.images mf'.images
          × (mf' ≡ record mf { images = mf'.images })
    from_loop (err x, images) e h = cc
    from_loop (ok u, images) e h =
        subst
          (λ (x : RaucManifest).
            All Digested x.images
            × Pairwise Settled mf.images x.images
            × (x ≡ record mf { images = x.images }))
          (ap (λ r. r.1) h) (d, s, refl)
      where
        loop : All Digested images × Pairwise Settled mf.images images
        loop =
            for_each_element-Accepts check_bundled_image Digested Settled bundled_image mf.images
              images e

        d : All Digested images
        d = loop.0

        s : Pairwise Settled mf.images images
        s = loop.1

pub bundled_images-Digested :
    (mf : RaucManifest) → All Digested mf.images → Accepts check_manifest_bundled mf mf
unfolding check_manifest_bundled
bundled_images-Digested mf h =
    rw (for_each_element-All check_bundled_image Digested bundled_image-Digested mf.images h) refl

same_hooks : (a b : RaucImage) → Settled a b → b.hooks ≡ a.hooks
same_hooks a b (inl e) = sym (ap (λ i. i.hooks) e)
same_hooks a b (inr (i, n, e)) = ap (λ i. i.hooks) e

-- No hook is used for the image.
abbrev pub HookFree : RaucImage → Type 0
HookFree image =
    (image.hooks.pre_install ≡ false)
    × (image.hooks.install ≡ false)
    × (image.hooks.post_install ≡ false)

pub both_false : (a b : Bool) → (a || b) ≡ false → (a ≡ false) × (b ≡ false)
both_false true b h = cc
both_false false b h = (refl, h)

pub images_have_hooks-HookFree :
    (images : List RaucImage) → images_have_hooks images ≡ false → All HookFree images
unfolding images_have_hooks
images_have_hooks-HookFree [] h = tt
images_have_hooks-HookFree (x ∷ xs) h =
    let (own, hs) =
      both_false (x.hooks.pre_install || x.hooks.install || x.hooks.post_install)
        (images_have_hooks xs) h in
    let (before, post) =
      both_false (x.hooks.pre_install || x.hooks.install) x.hooks.post_install own in
    let (pre, install) = both_false x.hooks.pre_install x.hooks.install before in
    ((pre, install, post), images_have_hooks-HookFree xs hs)

pub HookFree-images_have_hooks :
    (images : List RaucImage) → All HookFree images → images_have_hooks images ≡ false
unfolding images_have_hooks
HookFree-images_have_hooks [] h = refl
HookFree-images_have_hooks (x ∷ xs) ((pre, install, post), hs) =
    rw (pre, install, post) (HookFree-images_have_hooks xs hs)

pub HookFree-Pairwise :
    (xs ys : List RaucImage) → Pairwise Settled xs ys → All HookFree xs → All HookFree ys
HookFree-Pairwise [] [] h f = tt
HookFree-Pairwise [] (y ∷ ys) h f = absurd h
HookFree-Pairwise (x ∷ xs) [] h f = absurd h
HookFree-Pairwise (x ∷ xs) (y ∷ ys) (h, hs) (f, fs) =
    (rw (same_hooks x y h) f, HookFree-Pairwise xs ys hs fs)
