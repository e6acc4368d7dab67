-- ===== src/Manifest/External.antt =====
-- check_manifest_external (kirkstone/local/rauc/src/manifest.c) against the description of a manifest
-- that is delivered outside of its bundle.
use docker_yocto_kirkstone_n.Prelude.{
  ℕ, ◌%◌, ◌≡◌, ◌≢◌, ◌↔◌, refl, sym, ap, ◌∙◌, false, not, ◌&&◌, Option, none, some, Str, ◌==◌,
  is_some, All, arith, ◌⊎◌, inl, inr, Bool, true, length,
}
use mathlib.Core.Path.{subst}
use docker_yocto_kirkstone_n.Exec.{ok, ◌>>◌, fail_if, manifest_check}
use docker_yocto_kirkstone_n.Exec.Accepts.{Accepts, >>-Accepts, fail_if-Accepts, Pairwise}
use docker_yocto_kirkstone_n.Hex.{hex_decode}
use docker_yocto_kirkstone_n.Hex.Reads.{Reads, hex_decode-Reads, Reads-hex_decode}
use docker_yocto_kirkstone_n.Manifest.{
  RaucManifest, RManifestBundleFormat, format_plain, format_verity, format_crypt, other_format,
}
use docker_yocto_kirkstone_n.Manifest.Check.{
  is_unsupported, images_have_hooks, have_hooks, check_manifest_common, check_manifest_bundled,
  decodes, check_verity, check_format, check_manifest_external,
}
use docker_yocto_kirkstone_n.Manifest.Images.{
  Digested, Settled, bundled_images, bundled_images-Digested, HookFree, both_false,
  images_have_hooks-HookFree, HookFree-images_have_hooks, HookFree-Pairwise,
}

-- The manifest names the program of its hooks, or uses none: not to check whether it can be
-- installed, and not for an image.
abbrev pub HooksNamed : RaucManifest → Type 0
HooksNamed mf =
    ((name : Str) × (mf.hook_name ≡ some name))
    ⊎ ((mf.hooks.install_check ≡ false) × All HookFree mf.images)

named_hooks :
    (mf : RaucManifest) (name : Option Str)
    → mf.hook_name ≡ name
    → (have_hooks mf && not (is_some name)) ≡ false
    → HooksNamed mf
named_hooks mf (some name) e h = inl (name, e)
named_hooks mf none e h =
    let (own, images) =
      both_false mf.hooks.install_check (images_have_hooks mf.images) (unused (have_hooks mf) h) in
    inr (own, images_have_hooks-HookFree mf.images images)
  where
    unused : (b : Bool) → (b && true) ≡ false → b ≡ false
    unused true q = cc
    unused false q = refl

hooks_pass :
    (mf : RaucManifest) → HooksNamed mf → (have_hooks mf && not (is_some mf.hook_name)) ≡ false
hooks_pass mf (inl (name, e)) = rw e (and_false (have_hooks mf))
  where
    and_false : (b : Bool) → (b && false) ≡ false
    and_false true = refl
    and_false false = refl
hooks_pass mf (inr (own, free)) = rw (own, HookFree-images_have_hooks mf.images free) refl

pub common-Accepts :
    (mf mf' : RaucManifest)
    → Accepts check_manifest_common mf mf'
    → (is_unsupported mf.bundle_format ≡ false) × HooksNamed mf × (mf ≡ mf')
unfolding check_manifest_common
common-Accepts mf mf' h =
    let (mid, h1, h2) =
      >>-Accepts (fail_if (is_unsupported mf.bundle_format) manifest_check)
        (fail_if (have_hooks mf && not (is_some mf.hook_name)) manifest_check) mf mf' h in
    let (u, e) = fail_if-Accepts (is_unsupported mf.bundle_format) manifest_check mf mid h1 in
    let (n, e') =
      fail_if-Accepts (have_hooks mf && not (is_some mf.hook_name)) manifest_check mid mf' h2 in
    (u, subst HooksNamed (sym e) (named_hooks mid mid.hook_name refl (subst Unnamed e n)), e ∙ e')
  where
    Unnamed : RaucManifest → Type 0
    Unnamed m = (have_hooks m && not (is_some m.hook_name)) ≡ false

pub common-passes :
    (mf : RaucManifest)
    → is_unsupported mf.bundle_format ≡ false
    → HooksNamed mf
    → Accepts check_manifest_common mf mf
unfolding check_manifest_common
common-passes mf u n = rw (u, hooks_pass mf n) refl

-- A change of images that keeps their hooks.
pub HooksNamed-Settled :
    (mf mf' : RaucManifest)
    → mf' ≡ record mf { images = mf'.images }
    → Pairwise Settled mf.images mf'.images
    → HooksNamed mf
    → HooksNamed mf'
HooksNamed-Settled mf mf' e s (inl (name, n)) =
    inl (name, ap (λ (m : RaucManifest). m.hook_name) e ∙ n)
HooksNamed-Settled mf mf' e s (inr (own, free)) = inr (
  ap (λ (m : RaucManifest). m.hooks.install_check) e ∙ own,
  HookFree-Pairwise mf.images mf'.images s free,
)

module _ (xdigit_value : ℕ → Option ℕ) where
  -- Text that is the hexadecimal digits of 32 bytes.
  abbrev pub Bytes32 : Option Str → Type 0
  Bytes32 text =
      (hex raw : Str) × (text ≡ some hex) × Reads xdigit_value hex raw × (length raw ≡ 32)

  -- The root hash, the salt and the size of a dm-verity tree.
  abbrev pub Verity : RaucManifest → Type 0
  Verity mf =
      Bytes32 mf.bundle_verity_hash
      × Bytes32 mf.bundle_verity_salt
      × (mf.bundle_verity_size ≢ 0)
      × (mf.bundle_verity_size % 4096 ≡ 0)

  abbrev pub Protected : RManifestBundleFormat → RaucManifest → Type 0
  Protected format_plain mf = ⊥
  Protected format_verity mf = Verity mf
  Protected format_crypt mf = Bytes32 mf.bundle_crypt_key × Verity mf
  Protected (other_format n) mf = ⊥

  abbrev pub IsExternal : RaucManifest → Type 0
  IsExternal mf = HooksNamed mf × Protected mf.bundle_format mf × All Digested mf.images

  decoded : (o : Option Str) → not (decodes xdigit_value o) ≡ false → Bytes32 o
  decoded none h = cc
  decoded (some hex) h = by_result (hex_decode xdigit_value hex 32) refl h
    where
      by_result :
          (r : Option Str)
          → hex_decode xdigit_value hex 32 ≡ r
          → not (is_some r) ≡ false
          → Bytes32 (some hex)
      by_result none e q = cc
      by_result (some raw) e q =
          let (r, l) = hex_decode-Reads xdigit_value hex raw 32 e in (hex, raw, refl, r, l)

  decodes-Bytes32 : (o : Option Str) → Bytes32 o → not (decodes xdigit_value o) ≡ false
  decodes-Bytes32 o (hex, raw, e, r, l) = rw (e, Reads-hex_decode xdigit_value hex raw 32 r l) refl

  check_verity-Accepts :
      (mf s s' : RaucManifest) → Accepts (check_verity xdigit_value mf) s s' → Verity mf × (s ≡ s')
  check_verity-Accepts mf s s' h =
      let hashed = fail_if (not (decodes xdigit_value mf.bundle_verity_hash)) manifest_check in
      let salted = fail_if (not (decodes xdigit_value mf.bundle_verity_salt)) manifest_check in
      let sized = fail_if (mf.bundle_verity_size == 0) manifest_check in
      let aligned = fail_if (not (mf.bundle_verity_size % 4096 == 0)) manifest_check in
      let (s3, h3, h4) = >>-Accepts (hashed >> salted >> sized) aligned s s' h in
      let (s2, h2, hs) = >>-Accepts (hashed >> salted) sized s s3 h3 in
      let (s1, h0, h1) = >>-Accepts hashed salted s s2 h2 in
      let (e0, q0) =
        fail_if-Accepts (not (decodes xdigit_value mf.bundle_verity_hash)) manifest_check s s1 h0 in
      let (e1, q1) =
        fail_if-Accepts (not (decodes xdigit_value mf.bundle_verity_salt)) manifest_check s1 s2
          h1 in
      let (e2, q2) = fail_if-Accepts (mf.bundle_verity_size == 0) manifest_check s2 s3 hs in
      let (e3, q3) =
        fail_if-Accepts (not (mf.bundle_verity_size % 4096 == 0)) manifest_check s3 s' h4 in
      ((decoded _ e0, decoded _ e1, positive _ e2, zero_rest _ e3), q0 ∙ q1 ∙ q2 ∙ q3)
    where
      positive : (n : ℕ) → (n == 0) ≡ false → n ≢ 0
      positive n e q = ground arith

      zero_rest : (n : ℕ) → not (n == 0) ≡ false → n ≡ 0
      zero_rest n e = ground arith

  check_verity-passes :
      (mf s : RaucManifest) → Verity mf → Accepts (check_verity xdigit_value mf) s s
  check_verity-passes mf s (h, l, n, m) =
      rw (decodes-Bytes32 _ h, decodes-Bytes32 _ l, positive _ n, aligned _ m) refl
    where
      positive : (n : ℕ) → n ≢ 0 → (n == 0) ≡ false
      positive n q = ground arith

      aligned : (n : ℕ) → n ≡ 0 → not (n == 0) ≡ false
      aligned n q = ground arith

  format-Accepts :
      (f : RManifestBundleFormat) (mf s s' : RaucManifest)
      → Accepts (check_format xdigit_value f mf) s s'
      → Protected f mf × (s ≡ s')
  format-Accepts format_plain mf s s' h = cc
  format-Accepts format_verity mf s s' h = check_verity-Accepts mf s s' h
  format-Accepts format_crypt mf s s' h =
      let (mid, h1, h2) =
        >>-Accepts (fail_if (not (decodes xdigit_value mf.bundle_crypt_key)) manifest_check)
          (check_verity xdigit_value mf) s s' h in
      let (e, q) =
        fail_if-Accepts (not (decodes xdigit_value mf.bundle_crypt_key)) manifest_check s mid h1 in
      let (v, q') = check_verity-Accepts mf mid s' h2 in ((decoded _ e, v), q ∙ q')
  format-Accepts (other_format n) mf s s' h = cc

  format-passes :
      (f : RManifestBundleFormat) (mf s : RaucManifest)
      → Protected f mf
      → Accepts (check_format xdigit_value f mf) s s
  format-passes format_plain mf s h = absurd h
  format-passes format_verity mf s h = check_verity-passes mf s h
  format-passes format_crypt mf s (k, v) = rw (decodes-Bytes32 _ k) (check_verity-passes mf s v)
  format-passes (other_format n) mf s h = absurd h

  Protected-supported :
      (f : RManifestBundleFormat) (mf : RaucManifest) → Protected f mf → is_unsupported f ≡ false
  Protected-supported format_plain mf h = absurd h
  Protected-supported format_verity mf h = refl
  Protected-supported format_crypt mf h = refl
  Protected-supported (other_format n) mf h = absurd h

  -- The images of a manifest have no part in its protection.
  Protected-images :
      (f : RManifestBundleFormat) (mf mf' : RaucManifest)
      → mf' ≡ record mf { images = mf'.images }
      → Protected f mf
      → Protected f mf'
  Protected-images format_plain mf mf' e h = absurd h
  Protected-images format_verity mf mf' e h = subst Verity (sym e) h
  Protected-images format_crypt mf mf' e h =
      subst (λ m. Bytes32 m.bundle_crypt_key × Verity m) (sym e) h
  Protected-images (other_format n) mf mf' e h = absurd h

  abbrev Stages : RaucManifest → RaucManifest → Type 0
  Stages mf mf' =
      HooksNamed mf × Protected mf.bundle_format mf × Accepts check_manifest_bundled mf mf'

  stages :
      (mf mf' : RaucManifest)
      → Accepts (check_manifest_external xdigit_value) mf mf'
      → Stages mf mf'
  unfolding check_manifest_external
  stages mf mf' h =
      let supported = fail_if (is_unsupported mf.bundle_format) manifest_check in
      let format = check_format xdigit_value mf.bundle_format mf in
      let (s3, h3, h4) =
        >>-Accepts (supported >> check_manifest_common >> format) check_manifest_bundled mf mf' h in
      let (s2, h2, hf) = >>-Accepts (supported >> check_manifest_common) format mf s3 h3 in
      let (s1, h0, h1) = >>-Accepts supported check_manifest_common mf s2 h2 in
      let (e0, q0) = fail_if-Accepts (is_unsupported mf.bundle_format) manifest_check mf s1 h0 in
      let (e1, n, q1) = common-Accepts s1 s2 h1 in
      let (p, q2) = format-Accepts mf.bundle_format mf s2 s3 hf in
      (
        subst HooksNamed (sym q0) n,
        p,
        subst (λ m. Accepts check_manifest_bundled m mf') (sym (q0 ∙ q1 ∙ q2)) h4,
      )

  -- A manifest that check_manifest_external accepts is, after the check, one whose root hash and
  -- salt are the hexadecimal digits of 32 bytes, whose tree has a size that is a positive multiple of
  -- 4096, whose key is the hexadecimal digits of 32 bytes if the bundle is encrypted, which names the
  -- program of its hooks or uses none, and of which each image with a file has a SHA256 digest, a
  -- size and an output for each converter. The check changes nothing but the images, and of these
  -- only sizes below 0 of images with an install hook, to 0.
  pub check_manifest_external_sound :
      (mf mf' : RaucManifest)
      → check_manifest_external xdigit_value mf ≡ (ok tt, mf')
      → IsExternal mf'
        × Pairwise Settled mf.images mf'.images
        × (mf' ≡ record mf { images = mf'.images })
  check_manifest_external_sound mf mf' h =
      let (n, p, b) = stages mf mf' h in
      let (d, s, e) = bundled_images mf mf' b in
      let format = ap (λ (m : RaucManifest). m.bundle_format) e in
      (
        (
          HooksNamed-Settled mf mf' e s n,
          subst (λ f. Protected f mf') (sym format) (Protected-images mf.bundle_format mf mf' e p),
          d,
        ),
        s,
        e,
      )

  -- check_manifest_external accepts a manifest and leaves it as it is if and only if it has a bundle
  -- format with a dm-verity tree, the root hash and the salt of the tree are the hexadecimal digits of
  -- 32 bytes, and the key is, if the format is encrypted, the size of the tree is a positive multiple
  -- of 4096, the manifest names the program of its hooks or uses none, and each image with a file has
  -- a SHA256 digest, a size and an output for each converter.
  pub check_manifest_external_iff :
      (mf : RaucManifest) → (check_manifest_external xdigit_value mf ≡ (ok tt, mf)) ↔ IsExternal mf
  unfolding check_manifest_external
  check_manifest_external_iff mf = (
    (λ h. (check_manifest_external_sound mf mf h).0),
    λ (n, p, d).
        rw
          (
            Protected-supported mf.bundle_format mf p,
            common-passes mf (Protected-supported mf.bundle_format mf p) n,
            format-passes mf.bundle_format mf mf p,
          )
          (bundled_images-Digested mf d),
  )
