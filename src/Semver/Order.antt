-- ===== src/Semver/Order.antt =====
-- The order of versions is a total preorder.
use docker_yocto_kirkstone_n.Prelude.{
  ℕ, ◌≡◌, ◌≢◌, ◌⊎◌, refl, sym, ap, ◌∙◌, Bool, true, List, [], ◌∷◌, Option, none, some, Str, inl,
  inr, arith,
}
use docker_yocto_kirkstone_n.Exec.{Result, ok, err}
use docker_yocto_kirkstone_n.Compare.{
  Cmp, less, same, greater, memcmp, nat_cmp, follow, at_most, lex,
}
use docker_yocto_kirkstone_n.Compare.Order.{
  opposite, both, IsOrder, nat_cmp-IsOrder, follow-IsOrder, lex-IsOrder, IsOrder-total,
  IsOrder-trans, memcmp-lex,
}
use docker_yocto_kirkstone_n.Semver.{
  SemverGlib, Semver, parse, by_field, fields_le, pre_release_le, by_number, version_le, compared,
  less_equal,
}

-- Numbers come before other fields.
abbrev pub number_cmp : Option ℕ → Option ℕ → Cmp → Cmp
number_cmp (some a) (some b) cmp = nat_cmp a b
number_cmp (some a) none cmp = less
number_cmp none (some b) cmp = greater
number_cmp none none cmp = cmp

module _ (g : SemverGlib) where
  abbrev pub field_cmp : Str → Str → Cmp
  field_cmp a b = number_cmp (g.to_unsigned a) (g.to_unsigned b) (lex nat_cmp a b)

  field_cmp-IsOrder : IsOrder field_cmp
  field_cmp-IsOrder = record {
    swap = λ x y. swap (g.to_unsigned x) (g.to_unsigned y) _ _ (bytes.swap x y);
    chain = λ x y z.
        chain (g.to_unsigned x) (g.to_unsigned y) (g.to_unsigned z) _ _ _ (bytes.chain x y z);
  }
    where
      bytes : IsOrder (lex nat_cmp)
      bytes = lex-IsOrder nat_cmp nat_cmp-IsOrder

      swap :
          (a b : Option ℕ) (r t : Cmp)
          → t ≡ opposite r
          → number_cmp b a t ≡ opposite (number_cmp a b r)
      swap none none r t h = h
      swap none (some b) r t h = refl
      swap (some a) none r t h = refl
      swap (some a) (some b) r t h = nat_cmp-IsOrder.swap a b

      chain :
          (a b c : Option ℕ) (r t u : Cmp)
          → (r ≢ greater → t ≢ greater → u ≡ both r t)
          → number_cmp a b r ≢ greater
          → number_cmp b c t ≢ greater
          → number_cmp a c u ≡ both (number_cmp a b r) (number_cmp b c t)
      chain none none none r t u e h k = e h k
      chain none none (some c) r t u e h k = absurd (k refl)
      chain none (some b) c r t u e h k = absurd (h refl)
      chain (some a) none none r t u e h k = refl
      chain (some a) none (some c) r t u e h k = absurd (k refl)
      chain (some a) (some b) none r t u e h k = left (nat_cmp a b) h
        where
          left : (q : Cmp) → q ≢ greater → less ≡ both q less
          left less n = refl
          left same n = refl
          left greater n = absurd (n refl)
      chain (some a) (some b) (some c) r t u e h k = nat_cmp-IsOrder.chain a b c h k

  abbrev pub pre_release_cmp : Option Str → Option Str → Cmp
  pre_release_cmp none none = same
  pre_release_cmp none (some b) = greater
  pre_release_cmp (some a) none = less
  pre_release_cmp (some a) (some b) = lex field_cmp (g.strsplit a b'.') (g.strsplit b b'.')

  pre_release_cmp-IsOrder : IsOrder pre_release_cmp
  pre_release_cmp-IsOrder = record { swap = swap; chain = chain }
    where
      fields : IsOrder (lex field_cmp)
      fields = lex-IsOrder field_cmp field_cmp-IsOrder

      swap : (a b : Option Str) → pre_release_cmp b a ≡ opposite (pre_release_cmp a b)
      swap none none = refl
      swap none (some b) = refl
      swap (some a) none = refl
      swap (some a) (some b) = fields.swap (g.strsplit a b'.') (g.strsplit b b'.')

      chain :
          (a b c : Option Str)
          → pre_release_cmp a b ≢ greater
          → pre_release_cmp b c ≢ greater
          → pre_release_cmp a c ≡ both (pre_release_cmp a b) (pre_release_cmp b c)
      chain none none c h k = refl
      chain none (some b) c h k = absurd (h refl)
      chain (some a) none none h k = refl
      chain (some a) none (some c) h k = absurd (k refl)
      chain (some a) (some b) none h k = left (pre_release_cmp (some a) (some b)) h
        where
          left : (q : Cmp) → q ≢ greater → less ≡ both q less
          left less n = refl
          left same n = refl
          left greater n = absurd (n refl)
      chain (some a) (some b) (some c) h k =
          fields.chain (g.strsplit a b'.') (g.strsplit b b'.') (g.strsplit c b'.') h k

  -- The comparison that version_le asks for.
  abbrev pub patch_cmp : Semver → Semver → Cmp
  patch_cmp a b =
      follow (nat_cmp a.version_core.patch b.version_core.patch)
        (pre_release_cmp a.pre_release b.pre_release)

  abbrev pub minor_cmp : Semver → Semver → Cmp
  minor_cmp a b = follow (nat_cmp a.version_core.minor b.version_core.minor) (patch_cmp a b)

  abbrev pub version_cmp : Semver → Semver → Cmp
  version_cmp a b = follow (nat_cmp a.version_core.major b.version_core.major) (minor_cmp a b)

  pub version_cmp-IsOrder : IsOrder version_cmp
  version_cmp-IsOrder =
      follow-IsOrder nat_cmp minor_cmp (λ a. a.version_core.major) (λ a. a) nat_cmp-IsOrder
        (follow-IsOrder nat_cmp patch_cmp (λ a. a.version_core.minor) (λ a. a) nat_cmp-IsOrder
          (follow-IsOrder nat_cmp pre_release_cmp (λ a. a.version_core.patch) (λ a. a.pre_release)
            nat_cmp-IsOrder pre_release_cmp-IsOrder))

  by_number_lem : (a b : ℕ) (r : Cmp) → by_number a b (at_most r) ≡ at_most (follow (nat_cmp a b) r)
  by_number_lem a b r = ground arith

  by_field_lem :
      (a b : Option ℕ) (cmp r : Cmp)
      → by_field a b cmp (at_most r) ≡ at_most (follow (number_cmp a b cmp) r)
  by_field_lem (some a) (some b) cmp r = by_number_lem a b r
  by_field_lem (some a) none cmp r = refl
  by_field_lem none (some b) cmp r = refl
  by_field_lem none none less r = refl
  by_field_lem none none same r = refl
  by_field_lem none none greater r = refl

  fields_le_lem : (xs bs : List Str) → fields_le g xs bs ≡ at_most (lex field_cmp xs bs)
  unfolding fields_le lex
  fields_le_lem [] [] = refl
  fields_le_lem [] (b ∷ bs) = refl
  fields_le_lem (a ∷ xs) [] = refl
  fields_le_lem (a ∷ xs) (b ∷ bs) =
      ap (by_field (g.to_unsigned a) (g.to_unsigned b) (memcmp a b)) (fields_le_lem xs bs)
      ∙ by_field_lem (g.to_unsigned a) (g.to_unsigned b) (memcmp a b) (lex field_cmp xs bs)
      ∙ ap
          (λ r.
            at_most
              (follow (number_cmp (g.to_unsigned a) (g.to_unsigned b) r) (lex field_cmp xs bs)))
          (memcmp-lex a b)

  pre_release_le_lem : (a b : Option Str) → pre_release_le g a b ≡ at_most (pre_release_cmp a b)
  pre_release_le_lem none none = refl
  pre_release_le_lem none (some b) = refl
  pre_release_le_lem (some a) none = refl
  pre_release_le_lem (some a) (some b) = fields_le_lem (g.strsplit a b'.') (g.strsplit b b'.')

  version_le_lem : (a b : Semver) → version_le g a b ≡ at_most (version_cmp a b)
  unfolding version_le
  version_le_lem a b =
      ap
        (λ r.
          by_number a.version_core.major b.version_core.major
            (by_number a.version_core.minor b.version_core.minor r))
        (ap (by_number a.version_core.patch b.version_core.patch)
            (pre_release_le_lem a.pre_release b.pre_release)
          ∙ by_number_lem a.version_core.patch b.version_core.patch
              (pre_release_cmp a.pre_release b.pre_release))
      ∙ ap (by_number a.version_core.major b.version_core.major)
          (by_number_lem a.version_core.minor b.version_core.minor (patch_cmp a b))
      ∙ by_number_lem a.version_core.major b.version_core.major (minor_cmp a b)

  -- Of two versions that parse, r_semver_less_equal says of one at least that it is at most the
  -- other.
  pub less_equal_total :
      (a b : Str) (v w : Semver)
      → parse g a ≡ ok v
      → parse g b ≡ ok w
      → (less_equal g a b ≡ ok true) ⊎ (less_equal g b a ≡ ok true)
  unfolding less_equal
  less_equal_total a b v w h k = elim (IsOrder-total version_cmp version_cmp-IsOrder v w) [
    | inl le ↦ inl (rw (h, k) (ap ok (version_le_lem v w ∙ le)))
    | inr le ↦ inr (rw (h, k) (ap ok (version_le_lem w v ∙ le)))
  ]

  compared_ok :
      (v w : Result Semver)
      → compared g v w ≡ ok true
      → (a : Semver) × (b : Semver) × (v ≡ ok a) × (w ≡ ok b) × (at_most (version_cmp a b) ≡ true)
  compared_ok (err e) w h = cc
  compared_ok (ok a) (err e) h = cc
  compared_ok (ok a) (ok b) h = (a, b, refl, refl, sym (version_le_lem a b) ∙ the_answer h)
    where
      the_answer : {p q : Bool} → ok p ≡ ok q → p ≡ q
      the_answer q = cc

  -- r_semver_less_equal is transitive on the texts that it compares without an error.
  pub less_equal_trans :
      (a b c : Str)
      → less_equal g a b ≡ ok true
      → less_equal g b c ≡ ok true
      → less_equal g a c ≡ ok true
  unfolding less_equal
  less_equal_trans a b c h k =
      let (u, v, pu, pv, le) = compared_ok (parse g a) (parse g b) h in
      let (v', w, pv', pw, le') = compared_ok (parse g b) (parse g c) k in
      rw (pu, pw)
        (ap ok (
          version_le_lem u w
          ∙ IsOrder-trans version_cmp version_cmp-IsOrder u v w le
              (ap (λ x. at_most (version_cmp x w)) (the_version (sym pv ∙ pv')) ∙ le')))
    where
      the_version : {x y : Semver} → ok x ≡ ok y → x ≡ y
      the_version q = cc
