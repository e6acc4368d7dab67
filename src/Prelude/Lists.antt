-- ===== src/Prelude/Lists.antt =====
-- Lists measured by native numbers, and predicates on lists that compute to tuples.
use Prim.Native.Nat.{ℕ, zero, suc, ◌+◌, ◌-◌, ◌≤◌}
use mathlib.Core.Path.{◌≡◌, refl, sym, ap, ◌∙◌, subst}
use mathlib.Core.Logic.{◌⊎◌, inl, inr}
use mathlib.Core.Bool.{Bool, true, false}
use mathlib.Core.Option.{Option, none, some}
use mathlib.Core.List.{List, [], ◌∷◌, ◌++◌}
use native.Mathlib.Omega.{arith}
use docker_yocto_kirkstone_n.Prelude.Tests.{if◌then◌else◌}

module _ {ℓ} {A : Type ℓ} where
  abbrev pub length : List A → ℕ
  length [] = 0
  length (x ∷ xs) = suc (length xs)

  pub length-append : (xs ys : List A) → length (xs ++ ys) ≡ length xs + length ys
  length-append [] ys = omega arith
  length-append (x ∷ xs) ys = omega (arith, length-append xs ys)

  unfoldable pub get_elem? : List A → ℕ → Option A
  get_elem? [] i = none
  get_elem? (x ∷ xs) zero = some x
  get_elem? (x ∷ xs) (suc i) = get_elem? xs i

  unfoldable pub take : ℕ → List A → List A
  take zero xs = []
  take (suc n) [] = []
  take (suc n) (x ∷ xs) = x ∷ take n xs

  unfoldable pub drop : ℕ → List A → List A
  drop zero xs = xs
  drop (suc n) [] = []
  drop (suc n) (x ∷ xs) = drop n xs

  take-nil : (m : ℕ) → take m [] ≡ []
  unfolding take
  take-nil zero = refl
  take-nil (suc m) = refl

  drop-nil : (m : ℕ) → drop m [] ≡ []
  unfolding drop
  drop-nil zero = refl
  drop-nil (suc m) = refl

  -- A first part of a prefix, and what follows it.
  pub take-split :
      (n k : ℕ) (xs : List A) → k ≤ n → take k xs ++ take (n - k) (drop k xs) ≡ take n xs
  unfolding take drop
  take-split n zero xs h = ap (λ m. take m xs) (omega arith)
  take-split zero (suc k) xs h = absurd (omega arith)
  take-split (suc n) (suc k) [] h = take-nil (suc n - suc k)
  take-split (suc n) (suc k) (x ∷ xs) h =
      ap (λ m. x ∷ (take k xs ++ take m (drop k xs))) (omega arith)
      ∙ ap (λ r. x ∷ r) (take-split n k xs (omega arith))

  pub drop-drop : (n k : ℕ) (xs : List A) → drop k (drop n xs) ≡ drop (n + k) xs
  unfolding drop
  drop-drop zero k xs = ap (λ m. drop m xs) (omega arith)
  drop-drop (suc n) k [] = drop-nil k ∙ sym (drop-nil (suc n + k))
  drop-drop (suc n) k (x ∷ xs) = drop-drop n k xs ∙ cons_drop (suc n + k) (omega arith)
    where
      cons_drop : (m : ℕ) → m ≡ suc (n + k) → drop (n + k) xs ≡ drop m (x ∷ xs)
      cons_drop m h = ap (λ j. drop j (x ∷ xs)) (sym h)

  -- The first element that passes the test.
  unfoldable pub find_first : (A → Bool) → List A → Option A
  find_first p [] = none
  find_first p (x ∷ xs) = if p x then some x else find_first p xs

  -- The elements that pass the test, in order.
  unfoldable pub keep : (A → Bool) → List A → List A
  keep p [] = []
  keep p (x ∷ xs) = let rest = keep p xs in if p x then x ∷ rest else rest

module _ {ℓ κ} {A : Type ℓ} (P : A → Type κ) where
  abbrev pub All : List A → Type κ
  All [] = Unit
  All (x ∷ xs) = P x × All xs

  pub All-append : (xs ys : List A) → All xs → All ys → All (xs ++ ys)
  All-append [] ys hx hy = hy
  All-append (x ∷ xs) ys (px, hx) hy = (px, All-append xs ys hx hy)

  pub All-append_left : (xs ys : List A) → All (xs ++ ys) → All xs
  All-append_left [] ys h = tt
  All-append_left (x ∷ xs) ys (px, h) = (px, All-append_left xs ys h)

  pub All-append_right : (xs ys : List A) → All (xs ++ ys) → All ys
  All-append_right [] ys h = h
  All-append_right (x ∷ xs) ys (px, h) = All-append_right xs ys h

module _ {A : Type 0} where
  -- Membership with the position kept, for proofs by case splits.
  abbrev pub In : A → List A → Type 0
  In a [] = ⊥
  In a (x ∷ xs) = (x ≡ a) ⊎ In a xs

  pub find_first_sound :
      (p : A → Bool) (xs : List A) {a : A} → find_first p xs ≡ some a → In a xs × (p a ≡ true)
  unfolding find_first
  find_first_sound p [] h = cc
  find_first_sound p (x ∷ xs) {a} h = ground (arith, find_first_sound p xs {a = a})

  pub find_first_complete :
      (p : A → Bool) (xs : List A) {a : A} → find_first p xs ≡ none → In a xs → p a ≡ false
  unfolding find_first
  find_first_complete p [] h m = absurd m
  find_first_complete p (x ∷ xs) {a} h m = ground (arith, find_first_complete p xs {a = a})

  pub In-keep : (p : A → Bool) (xs : List A) {a : A} → In a (keep p xs) → In a xs × (p a ≡ true)
  unfolding keep
  In-keep p [] m = absurd m
  In-keep p (x ∷ xs) {a} m = ground (arith, In-keep p xs {a = a})

  pub keep-In : (p : A → Bool) (xs : List A) {a : A} → In a xs → p a ≡ true → In a (keep p xs)
  unfolding keep
  keep-In p [] m h = absurd m
  keep-In p (x ∷ xs) {a} m h = ground (arith, keep-In p xs {a = a})

  pub All-In : (P : A → Type 0) (xs : List A) {a : A} → All P xs → In a xs → P a
  All-In P [] h m = absurd m
  All-In P (x ∷ xs) (h, hs) (inl e) = subst P e h
  All-In P (x ∷ xs) (h, hs) (inr m) = All-In P xs hs m
