-- ===== src/Compare/Order.antt =====
-- Comparisons that are total preorders.
use docker_yocto_kirkstone_n.Prelude.{
  ℕ, ◌≡◌, ◌≢◌, ◌⊎◌, refl, true, List, [], ◌∷◌, Str, inl, inr, arith,
}
use docker_yocto_kirkstone_n.Compare.{
  Cmp, less, same, greater, memcmp, nat_cmp, follow, at_most, lex,
}

abbrev pub opposite : Cmp → Cmp
opposite less = greater
opposite same = same
opposite greater = less

abbrev pub both : Cmp → Cmp → Cmp
both less r = less
both same r = r
both greater r = greater

-- What a comparison needs to be a total preorder.
pub record IsOrder {A : Type 0} (cmp : A → A → Cmp) : Type 0 where
  pub swap : (x y : A) → cmp y x ≡ opposite (cmp x y)
  pub chain :
      (x y z : A) → cmp x y ≢ greater → cmp y z ≢ greater → cmp x z ≡ both (cmp x y) (cmp y z)

pub nat_cmp-IsOrder : IsOrder nat_cmp
nat_cmp-IsOrder = record { swap = swap; chain = chain }
  where
    swap : (x y : ℕ) → nat_cmp y x ≡ opposite (nat_cmp x y)
    swap x y = ground arith

    chain :
        (x y z : ℕ)
        → nat_cmp x y ≢ greater
        → nat_cmp y z ≢ greater
        → nat_cmp x z ≡ both (nat_cmp x y) (nat_cmp y z)
    chain x y z h k = ground arith

opposite-follow : (a r : Cmp) → follow (opposite a) (opposite r) ≡ opposite (follow a r)
opposite-follow less r = refl
opposite-follow same r = refl
opposite-follow greater r = refl

both-follow :
    (a b r t u : Cmp)
    → follow a r ≢ greater
    → follow b t ≢ greater
    → (r ≢ greater → t ≢ greater → u ≡ both r t)
    → follow (both a b) u ≡ both (follow a r) (follow b t)
both-follow less b r t u h k e = refl
both-follow same less less t u h k e = refl
both-follow same less same t u h k e = refl
both-follow same less greater t u h k e = absurd (h refl)
both-follow same same r t u h k e = e h k
both-follow same greater r t u h k e = absurd (k refl)
both-follow greater b r t u h k e = absurd (h refl)

follow_left : (a r : Cmp) → follow a r ≢ greater → a ≢ greater
follow_left less r h q = cc
follow_left same r h q = cc
follow_left greater r h q = h refl

-- One comparison after another.
pub follow-IsOrder :
    {A B C : Type 0} (first : B → B → Cmp) (second : C → C → Cmp) (f : A → B) (g : A → C)
    → IsOrder first
    → IsOrder second
    → IsOrder (λ x y. follow (first (f x) (f y)) (second (g x) (g y)))
follow-IsOrder first second f g a b = record {
  swap = λ x y.
      rw (a.swap (f x) (f y), b.swap (g x) (g y))
        (opposite-follow (first (f x) (f y)) (second (g x) (g y)));
  chain = λ x y z h k. rw (a.chain (f x) (f y) (f z) (follow_left _ _ h) (follow_left _ _ k)) (
      both-follow (first (f x) (f y)) (first (f y) (f z)) (second (g x) (g y)) (second (g y) (g z))
        (second (g x) (g z)) h k (λ m n. b.chain (g x) (g y) (g z) m n));
}

module _ {A : Type 0} (cmp : A → A → Cmp) (order : IsOrder cmp) where
  lex_swap : (xs ys : List A) → lex cmp ys xs ≡ opposite (lex cmp xs ys)
  unfolding lex
  lex_swap [] [] = refl
  lex_swap [] (y ∷ ys) = refl
  lex_swap (x ∷ xs) [] = refl
  lex_swap (x ∷ xs) (y ∷ ys) =
      rw (order.swap x y, lex_swap xs ys) (opposite-follow (cmp x y) (lex cmp xs ys))

  lex_chain :
      (xs ys zs : List A)
      → lex cmp xs ys ≢ greater
      → lex cmp ys zs ≢ greater
      → lex cmp xs zs ≡ both (lex cmp xs ys) (lex cmp ys zs)
  unfolding lex
  lex_chain [] [] zs h k = refl
  lex_chain [] (y ∷ ys) [] h k = absurd (k refl)
  lex_chain [] (y ∷ ys) (z ∷ zs) h k = refl
  lex_chain (x ∷ xs) [] zs h k = absurd (h refl)
  lex_chain (x ∷ xs) (y ∷ ys) [] h k = absurd (k refl)
  lex_chain (x ∷ xs) (y ∷ ys) (z ∷ zs) h k =
      rw (order.chain x y z (follow_left (cmp x y) _ h) (follow_left (cmp y z) _ k)) (
        both-follow (cmp x y) (cmp y z) (lex cmp xs ys) (lex cmp ys zs) (lex cmp xs zs) h k
          (lex_chain xs ys zs))

  pub lex-IsOrder : IsOrder (lex cmp)
  lex-IsOrder = record { swap = lex_swap; chain = lex_chain }

  -- Of two, one is at most the other.
  pub IsOrder-total : (x y : A) → (at_most (cmp x y) ≡ true) ⊎ (at_most (cmp y x) ≡ true)
  IsOrder-total x y = split (cmp x y) (cmp y x) (order.swap x y)
    where
      split : (a b : Cmp) → b ≡ opposite a → (at_most a ≡ true) ⊎ (at_most b ≡ true)
      split less b h = inl refl
      split same b h = inl refl
      split greater b h = inr (rw h refl)

  pub IsOrder-trans :
      (x y z : A) → at_most (cmp x y) ≡ true → at_most (cmp y z) ≡ true → at_most (cmp x z) ≡ true
  IsOrder-trans x y z h k =
      rw (order.chain x y z (not_greater (cmp x y) h) (not_greater (cmp y z) k))
        (at_most-both (cmp x y) (cmp y z) h k)
    where
      not_greater : (a : Cmp) → at_most a ≡ true → a ≢ greater
      not_greater less h q = cc
      not_greater same h q = cc
      not_greater greater h q = cc

      at_most-both : (a b : Cmp) → at_most a ≡ true → at_most b ≡ true → at_most (both a b) ≡ true
      at_most-both less b h k = refl
      at_most-both same b h k = k
      at_most-both greater b h k = h

pub memcmp-lex : (s t : Str) → memcmp s t ≡ lex nat_cmp s t
unfolding memcmp lex
memcmp-lex [] [] = refl
memcmp-lex [] (d ∷ t) = refl
memcmp-lex (c ∷ s) [] = refl
memcmp-lex (c ∷ s) (d ∷ t) = ground (arith, memcmp-lex s t)
