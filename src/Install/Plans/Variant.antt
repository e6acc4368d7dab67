-- ===== src/Install/Plans/Variant.antt =====
-- The image that r_install_make_plans (kirkstone/local/rauc/src/install.c) finds for a class of slots.
use docker_yocto_kirkstone_n.Prelude.{
  ◌≡◌, refl, sym, ap, ◌∙◌, ◌⊎◌, inl, inr, Bool, true, false, List, [], ◌∷◌, Option, none, some, Str,
  str_eq, str_eq_iff, opt_eq, is_some, ◌&&◌, Bool-cases, In, All,
}
use mathlib.Core.Path.{subst}
use docker_yocto_kirkstone_n.Manifest.{RaucImage}
use docker_yocto_kirkstone_n.Install.Plans.{by_variant, find_image}

-- An image for the variant of the system.
abbrev pub is_for_variant : Option Str → RaucImage → Bool
is_for_variant system_variant image = is_some image.variant && opt_eq image.variant system_variant

module _ (system_variant : Option Str) (cls : Str) where
  -- An image of the class that is for another variant, or for all.
  abbrev pub Other : RaucImage → Type 0
  Other image = str_eq image.slotclass cls ≡ true → is_for_variant system_variant image ≡ false

  -- An image for the variant, or one for all variants where no image is for the variant.
  abbrev pub Best : List RaucImage → RaucImage → Type 0
  Best images image =
      (is_for_variant system_variant image ≡ true) ⊎ ((image.variant ≡ none) × All Other images)

  abbrev Found : List RaucImage → Option RaucImage → RaucImage → Type 0
  Found images matching image =
      (In image images × (image.slotclass ≡ cls) × (is_for_variant system_variant image ≡ true))
      ⊎ (((matching ≡ some image)
            ⊎ (In image images × (image.slotclass ≡ cls) × (image.variant ≡ none)))
          × All Other images)

  grow :
      (x : RaucImage) (images : List RaucImage) (matching : Option RaucImage) (image : RaucImage)
      → Other x
      → Found images matching image
      → Found (x ∷ images) matching image
  grow x images matching image o (inl (m, c, v)) = inl (inr m, c, v)
  grow x images matching image o (inr (inl e, os)) = inr (inl e, (o, os))
  grow x images matching image o (inr (inr (m, c, v), os)) = inr (inr (inr m, c, v), (o, os))

  abbrev Later : List RaucImage → RaucImage → Type 0
  Later images image =
      (m : Option RaucImage)
      → find_image system_variant cls images m ≡ some image
      → Found images m image

  for_all_variants : (x : RaucImage) → x.variant ≡ none → Other x
  for_all_variants x ev c = rw ev refl

  -- An image for all variants, kept until a better one is found.
  kept_default :
      (x : RaucImage) (images : List RaucImage) (image : RaucImage)
      → x.slotclass ≡ cls
      → x.variant ≡ none
      → Found images (some x) image
      → Found (x ∷ images) none image
  kept_default x images image c ev (inl (m, c', v)) = inl (inr m, c', v)
  kept_default x images image c ev (inr (inl e, os)) =
      let own = the_image e in
      inr (
        inr (inl own, sym (ap (λ i. i.slotclass) own) ∙ c, sym (ap (λ i. i.variant) own) ∙ ev),
        (for_all_variants x ev, os),
      )
    where
      the_image : some x ≡ some image → x ≡ image
      the_image q = cc
  kept_default x images image c ev (inr (inr (m, c', v), os)) =
      inr (inr (inr m, c', v), (for_all_variants x ev, os))

  chosen :
      (x : RaucImage) (images : List RaucImage) (image : RaucImage) (v : Option Str)
      (matching : Option RaucImage)
      → x.slotclass ≡ cls
      → x.variant ≡ v
      → Later images image
      → by_variant system_variant v x matching (find_image system_variant cls images) ≡ some image
      → Found (x ∷ images) matching image
  chosen x images image none none c ev later h = kept_default x images image c ev (later (some x) h)
  chosen x images image none (some kept) c ev later h =
      grow x images (some kept) image (for_all_variants x ev) (later (some kept) h)
  chosen x images image (some v) matching c ev later h =
      elim (Bool-cases (opt_eq (some v) system_variant)) [
        | inl q ↦
            let own = the_image (rw q at h) in
            inl (
              inl own,
              sym (ap (λ i. i.slotclass) own) ∙ c,
              subst (λ i. is_for_variant system_variant i ≡ true) own (rw (ev, q) refl),
            )
        | inr q ↦ grow x images matching image (λ c'. rw (ev, q) refl) (later matching (rw q at h))
      ]
    where
      the_image : some x ≡ some image → x ≡ image
      the_image q = cc

  find_image_lem :
      (images : List RaucImage) (matching : Option RaucImage) (image : RaucImage)
      → find_image system_variant cls images matching ≡ some image
      → Found images matching image
  unfolding find_image
  find_image_lem [] matching image h = inr (inl h, tt)
  find_image_lem (x ∷ images) matching image h = elim (Bool-cases (str_eq x.slotclass cls)) [
    | inr e ↦
        grow x images matching image (λ e'. cc) (find_image_lem images matching image (rw e at h))
    | inl e ↦
        chosen x images image x.variant matching ((str_eq_iff x.slotclass cls).0 e) refl
          (λ m. find_image_lem images m image) (rw e at h)
  ]

  pub find_image_sound :
      (images : List RaucImage) (image : RaucImage)
      → find_image system_variant cls images none ≡ some image
      → In image images × (image.slotclass ≡ cls) × Best images image
  find_image_sound images image h = from_found (find_image_lem images none image h)
    where
      from_found :
          Found images none image → In image images × (image.slotclass ≡ cls) × Best images image
      from_found (inl (m, c, v)) = (m, c, inl v)
      from_found (inr (inl e, os)) = cc
      from_found (inr (inr (m, c, v), os)) = (m, c, inr (v, os))
