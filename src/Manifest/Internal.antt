-- ===== src/Manifest/Internal.antt =====
-- check_manifest_internal and check_manifest_input (kirkstone/local/rauc/src/manifest.c): a manifest
-- inside its bundle, and one that a bundle is made from.
use docker_yocto_kirkstone_n.Prelude.{
  ℕ, ◌≡◌, ◌≢◌, refl, sym, ap, ◌∙◌, false, not, ◌||◌, Option, none, some, Str, ◌==◌, is_some, All,
  arith,
}
use mathlib.Core.Path.{subst}
use docker_yocto_kirkstone_n.Exec.{ok, ◌>>◌, fail_if, for_each, manifest_check, aborted}
use docker_yocto_kirkstone_n.Exec.Accepts.{
  Accepts, Pairwise, >>-Accepts, fail_if-Accepts, for_each-Accepts,
}
use docker_yocto_kirkstone_n.Manifest.{
  RaucImage, RaucManifest, RManifestBundleFormat, format_plain, format_verity, format_crypt,
  other_format,
}
use docker_yocto_kirkstone_n.Manifest.Check.{
  is_plain, has_elements, check_plain_image, check_manifest_common, check_manifest_plain,
  check_manifest_bundled, check_unprotected, check_manifest_internal, check_manifest_external,
}
use docker_yocto_kirkstone_n.Manifest.Images.{Digested, Settled, bundled_images}
use docker_yocto_kirkstone_n.Manifest.External.{
  HooksNamed, HooksNamed-Settled, common-Accepts, check_manifest_external_sound, Protected,
}

-- What a plain bundle can hold: no artifact, and no image that was converted.
abbrev pub PlainImage : RaucImage → Type 0
PlainImage image =
    (is_some image.artifact ≡ false)
    × ((is_some image.convert || has_elements image.converted) ≡ false)

-- No protection that an external manifest has.
abbrev pub Bare : RaucManifest → Type 0
Bare mf =
    (mf.bundle_crypt_key ≡ none)
    × (mf.bundle_verity_hash ≡ none)
    × (mf.bundle_verity_salt ≡ none)
    × (mf.bundle_verity_size ≡ 0)

abbrev pub IsInternal : RaucManifest → Type 0
IsInternal mf =
    HooksNamed mf
    × (mf.bundle_format ≡ format_plain)
    × All Digested mf.images
    × All PlainImage mf.images
    × Bare mf

plain_image :
    (image : RaucImage) (s s' : RaucManifest)
    → Accepts (check_plain_image image) s s'
    → PlainImage image × (s ≡ s')
plain_image image s s' h =
    let artifact = fail_if (is_some image.artifact) manifest_check in
    let converter =
      fail_if (is_some image.convert || has_elements image.converted) manifest_check in
    let (mid, h1, h2) = >>-Accepts artifact converter s s' h in
    let (a, e) = fail_if-Accepts (is_some image.artifact) manifest_check s mid h1 in
    let (c, e') =
      fail_if-Accepts (is_some image.convert || has_elements image.converted) manifest_check mid s'
        h2 in
    ((a, c), e ∙ e')

plain-Accepts :
    (mf mf' : RaucManifest)
    → Accepts check_manifest_plain mf mf'
    → All PlainImage mf.images × (mf ≡ mf')
unfolding check_manifest_plain
plain-Accepts mf mf' h =
    let (mid, h1, h2) =
      >>-Accepts (fail_if (not (is_plain mf.bundle_format)) aborted)
        (for_each check_plain_image mf.images) mf mf' h in
    let (p, e) = fail_if-Accepts (not (is_plain mf.bundle_format)) aborted mf mid h1 in
    let (a, e') = for_each-Accepts check_plain_image PlainImage plain_image mf.images mid mf' h2 in
    (a, e ∙ e')

format-is_plain : (f : RManifestBundleFormat) → not (is_plain f) ≡ false → f ≡ format_plain
format-is_plain format_plain h = refl
format-is_plain format_verity h = cc
format-is_plain format_crypt h = cc
format-is_plain (other_format n) h = cc

none_of : (o : Option Str) → is_some o ≡ false → o ≡ none
none_of none h = refl
none_of (some a) h = cc

abbrev Stages : RaucManifest → RaucManifest → Type 0
Stages mf mf' =
    HooksNamed mf
    × (mf.bundle_format ≡ format_plain)
    × Accepts check_manifest_bundled mf mf'
    × All PlainImage mf'.images
    × Bare mf

check_unprotected-Bare :
    (mf s s' : RaucManifest) → Accepts (check_unprotected mf) s s' → Bare mf × (s ≡ s')
check_unprotected-Bare mf s s' h =
    let key = fail_if (is_some mf.bundle_crypt_key) manifest_check in
    let root = fail_if (is_some mf.bundle_verity_hash) manifest_check in
    let salt = fail_if (is_some mf.bundle_verity_salt) manifest_check in
    let sized = fail_if (not (mf.bundle_verity_size == 0)) manifest_check in
    let (s3, h3, h4) = >>-Accepts (key >> root >> salt) sized s s' h in
    let (s2, h2, hs) = >>-Accepts (key >> root) salt s s3 h3 in
    let (s1, h0, h1) = >>-Accepts key root s s2 h2 in
    let (e0, q0) = fail_if-Accepts (is_some mf.bundle_crypt_key) manifest_check s s1 h0 in
    let (e1, q1) = fail_if-Accepts (is_some mf.bundle_verity_hash) manifest_check s1 s2 h1 in
    let (e2, q2) = fail_if-Accepts (is_some mf.bundle_verity_salt) manifest_check s2 s3 hs in
    let (e3, q3) = fail_if-Accepts (not (mf.bundle_verity_size == 0)) manifest_check s3 s' h4 in
    ((none_of _ e0, none_of _ e1, none_of _ e2, empty _ e3), q0 ∙ q1 ∙ q2 ∙ q3)
  where
    empty : (n : ℕ) → not (n == 0) ≡ false → n ≡ 0
    empty n e = ground arith

stages : (mf mf' : RaucManifest) → Accepts check_manifest_internal mf mf' → Stages mf mf'
unfolding check_manifest_internal
stages mf mf' h =
    let plain = fail_if (not (is_plain mf.bundle_format)) manifest_check in
    let (s4, h4, h5) =
      >>-Accepts (check_manifest_common >> plain >> check_manifest_bundled >> check_manifest_plain)
        (check_unprotected mf) mf mf' h in
    let (s3, h3, hp) =
      >>-Accepts (check_manifest_common >> plain >> check_manifest_bundled) check_manifest_plain mf
        s4 h4 in
    let (s2, h2, hb) =
      >>-Accepts (check_manifest_common >> plain) check_manifest_bundled mf s3 h3 in
    let (s1, h0, h1) = >>-Accepts check_manifest_common plain mf s2 h2 in
    let (e0, n, q0) = common-Accepts mf s1 h0 in
    let (e1, q1) = fail_if-Accepts (not (is_plain mf.bundle_format)) manifest_check s1 s2 h1 in
    let (a, q2) = plain-Accepts s3 s4 hp in
    let (b, q3) = check_unprotected-Bare mf s4 mf' h5 in
    (
      n,
      format-is_plain _ e1,
      subst (λ m. Accepts check_manifest_bundled mf m) (q2 ∙ q3)
          (subst (λ m. Accepts check_manifest_bundled m s3) (sym (q0 ∙ q1)) hb),
      subst (λ m. All PlainImage m.images) (q2 ∙ q3) a,
      b,
    )

-- A manifest that check_manifest_internal accepts is, after the check, one in the plain format
-- without a key, a root hash, a salt and a size of a tree, which names the program of its hooks or
-- uses none, and of which each image is for a slot, has no converters, and has a SHA256 digest and a
-- size if it has a file. The check changes nothing but the images, and of these only sizes below 0
-- of images with an install hook, to 0.
pub check_manifest_internal_sound :
    (mf mf' : RaucManifest)
    → check_manifest_internal mf ≡ (ok tt, mf')
    → IsInternal mf'
      × Pairwise Settled mf.images mf'.images
      × (mf' ≡ record mf { images = mf'.images })
check_manifest_internal_sound mf mf' h =
    let (n, f, b, a, u) = stages mf mf' h in
    let (d, s, e) = bundled_images mf mf' b in
    (
      (
        HooksNamed-Settled mf mf' e s n,
        ap (λ (m : RaucManifest). m.bundle_format) e ∙ f,
        d,
        a,
        subst Bare (sym e) u,
      ),
      s,
      e,
    )

unprotected :
    (f : RManifestBundleFormat) (xdigit_value : ℕ → Option ℕ) (mf : RaucManifest)
    → f ≡ format_plain
    → Protected xdigit_value f mf
    → ⊥
unprotected format_plain xdigit_value mf e p = p
unprotected format_verity xdigit_value mf e p = cc
unprotected format_crypt xdigit_value mf e p = cc
unprotected (other_format n) xdigit_value mf e p = p

-- A manifest that check_manifest_internal accepts is refused by check_manifest_external.
pub internal-external :
    (xdigit_value : ℕ → Option ℕ) (mf a b : RaucManifest)
    → check_manifest_internal mf ≡ (ok tt, a)
    → check_manifest_external xdigit_value mf ≢ (ok tt, b)
internal-external xdigit_value mf a b hi he =
    let (n, f, b1, a1, u) = stages mf a hi in
    let ((m, p, d), s, e) = check_manifest_external_sound xdigit_value mf b he in
    unprotected b.bundle_format xdigit_value b (ap (λ (x : RaucManifest). x.bundle_format) e ∙ f) p
