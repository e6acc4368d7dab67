-- ===== src/Exec/Accepts.antt =====
-- What follows from a success: each part of a sequence has succeeded.
use docker_yocto_kirkstone_n.Prelude.{
  ◌≡◌, refl, sym, ap, Bool, true, false, List, [], ◌∷◌, All, ◌∙◌, ◌⊎◌, inl, inr,
}
use docker_yocto_kirkstone_n.Exec.{
  Error, Result, ok, err, Exec, ◌>>=◌, ◌>>◌, next, fail_if, for_each, for_each_element, cons_state,
}

-- An action that succeeded, its last state.
abbrev pub Accepts : {S : Type 0} → Exec S (Unit {0}) → S → S → Type 0
Accepts m s s' = m s ≡ (ok tt, s')

module _ {S : Type 0} where
  abbrev Parts : Exec S (Unit {0}) → Exec S (Unit {0}) → S → S → Type 0
  Parts m n s s' = (mid : S) × Accepts m s mid × Accepts n mid s'

  parts :
      (m n : Exec S (Unit {0})) (s s' : S) (r : Result (Unit {0}) × S)
      → m s ≡ r
      → next r.0 (λ _. n) r.1 ≡ (ok tt, s')
      → Parts m n s s'
  parts m n s s' (ok u, mid) e h = (mid, e, h)
  parts m n s s' (err x, mid) e h = cc

  pub >>-Accepts : (m n : Exec S (Unit {0})) (s s' : S) → Accepts (m >> n) s s' → Parts m n s s'
  >>-Accepts m n s s' h = parts m n s s' (m s) refl h

  pub fail_if-Accepts :
      (b : Bool) (e : Error) (s s' : S) → Accepts (fail_if b e) s s' → (b ≡ false) × (s ≡ s')
  fail_if-Accepts true e s s' h = cc
  fail_if-Accepts false e s s' h = (refl, ap (λ r. r.1) h)

  module _ {A : Type 0} (f : A → Exec S (Unit {0})) (P : A → Type 0)
      (each : (a : A) (s s' : S) → Accepts (f a) s s' → P a × (s ≡ s')) where
    pub for_each-Accepts :
        (xs : List A) (s s' : S) → Accepts (for_each f xs) s s' → All P xs × (s ≡ s')
    unfolding for_each
    for_each-Accepts [] s s' h = (tt, ap (λ r. r.1) h)
    for_each-Accepts (x ∷ xs) s s' h =
        let (mid, h1, h2) = >>-Accepts (f x) (for_each f xs) s s' h in
        let (p, e) = each x s mid h1 in
        let (ps, es) = for_each-Accepts xs mid s' h2 in ((p, ps), cc)

  module _ {A : Type 0} (f : A → Exec S (Unit {0})) (P : A → Type 0) (s : S)
      (each : (a : A) → P a → Accepts (f a) s s) where
    pub for_each-All : (xs : List A) → All P xs → Accepts (for_each f xs) s s
    unfolding for_each
    for_each-All [] h = refl
    for_each-All (x ∷ xs) (h, hs) = rw (each x h) (for_each-All xs hs)

module _ {S A B : Type 0} (m : Exec S A) (k : A → Exec S B) (s s' : S) (b : B) where
  abbrev BindParts : Type 0
  BindParts = (a : A) × (mid : S) × (m s ≡ (ok a, mid)) × (k a mid ≡ (ok b, s'))

  pub >>=-ok : (m >>= k) s ≡ (ok b, s') → BindParts
  >>=-ok h = from (m s) refl h
    where
      from : (r : Result A × S) → m s ≡ r → next r.0 k r.1 ≡ (ok b, s') → BindParts
      from (ok a, mid) e q = (a, mid, e, q)
      from (err x, mid) e q = cc

module _ {S A B : Type 0} (m : Exec S A) (k : A → Exec S B) (s s' : S) (r : Result B) where
  -- The first part fails, or the second one runs.
  abbrev pub BindCases : Type 0
  BindCases =
      ((e : Error) × (r ≡ err e) × (m s ≡ (err e, s')))
      ⊎ ((a : A) × (mid : S) × (m s ≡ (ok a, mid)) × (k a mid ≡ (r, s')))

  pub >>=-cases : (m >>= k) s ≡ (r, s') → BindCases
  >>=-cases h = from (m s) refl h
    where
      from : (q : Result A × S) → m s ≡ q → next q.0 k q.1 ≡ (r, s') → BindCases
      from (ok a, mid) e h = inr (a, mid, e, h)
      from (err x, mid) e h =
          inl (x, sym (ap (λ p. p.0) h), e ∙ ap (λ t. (err x, t)) (ap (λ p. p.1) h))

-- Two lists of one length, their elements in a relation.
abbrev pub Pairwise : {A : Type 0} → (A → A → Type 0) → List A → List A → Type 0
Pairwise R [] [] = Unit
Pairwise R [] (y ∷ ys) = ⊥
Pairwise R (x ∷ xs) [] = ⊥
Pairwise R (x ∷ xs) (y ∷ ys) = R x y × Pairwise R xs ys

module _ {A : Type 0} (f : Exec A (Unit {0})) where
  abbrev Split : A → List A → List A → Type 0
  Split x xs ys =
      (y : A) × (rest : List A) × (ys ≡ y ∷ rest)
      × Accepts f x y
      × Accepts (for_each_element f) xs rest

  split :
      (x : A) (xs ys : List A) (r : Result (Unit {0}) × A) (q : Result (Unit {0}) × List A)
      → f x ≡ r
      → for_each_element f xs ≡ q
      → cons_state r q xs ≡ (ok tt, ys)
      → Split x xs ys
  split x xs ys (ok u, y) (ok v, rest) e e' h = (y, rest, sym (ap (λ p. p.1) h), e, e')
  split x xs ys (ok u, y) (err v, rest) e e' h = cc
  split x xs ys (err u, y) q e e' h = cc

  module _ (P : A → Type 0) (R : A → A → Type 0)
      (each : (a b : A) → Accepts f a b → P b × R a b) where
    pub for_each_element-Accepts :
        (xs ys : List A) → Accepts (for_each_element f) xs ys → All P ys × Pairwise R xs ys
    unfolding for_each_element
    for_each_element-Accepts [] ys h = rw (sym (ap (λ r. r.1) h)) (tt, tt)
    for_each_element-Accepts (x ∷ xs) ys h =
        let (y, rest, e, h1, h2) = split x xs ys (f x) (for_each_element f xs) refl refl h in
        let (p, r) = each x y h1 in
        let (ps, rs) = for_each_element-Accepts xs rest h2 in rw e ((p, ps), (r, rs))

  module _ (P : A → Type 0) (each : (a : A) → P a → Accepts f a a) where
    pub for_each_element-All : (xs : List A) → All P xs → Accepts (for_each_element f) xs xs
    unfolding for_each_element
    for_each_element-All [] h = refl
    for_each_element-All (x ∷ xs) (h, hs) = rw (each x h, for_each_element-All xs hs) refl
