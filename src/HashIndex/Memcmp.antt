-- ===== src/HashIndex/Memcmp.antt =====
-- memcmp as an order.
use docker_yocto_kirkstone_n.Prelude.{◌≡◌, ◌≢◌, refl, [], ◌∷◌, Str, arith}
use docker_yocto_kirkstone_n.Compare.{Cmp, less, same, greater, memcmp}

abbrev pub AtMost : Str → Str → Type 0
AtMost a b = memcmp a b ≢ greater

pub memcmp_swap_less : (a b : Str) → memcmp a b ≡ less → memcmp b a ≡ greater
unfolding memcmp
memcmp_swap_less [] [] h = cc
memcmp_swap_less [] (d ∷ t) h = refl
memcmp_swap_less (c ∷ s) [] h = cc
memcmp_swap_less (c ∷ s) (d ∷ t) h = ground (arith, memcmp_swap_less s t)

pub memcmp-same : (a b : Str) → memcmp a b ≡ same → a ≡ b
unfolding memcmp
memcmp-same [] [] h = refl
memcmp-same [] (d ∷ t) h = cc
memcmp-same (c ∷ s) [] h = cc
memcmp-same (c ∷ s) (d ∷ t) h = ground (arith, memcmp-same s t)

pub memcmp_refl : (a : Str) → memcmp a a ≡ same
unfolding memcmp
memcmp_refl [] = refl
memcmp_refl (c ∷ s) = ground (arith, memcmp_refl s)

Cmp-cases : (r : Cmp) → (r ≢ less) → (r ≢ greater) → r ≡ same
Cmp-cases less h k = absurd (h refl)
Cmp-cases same h k = refl
Cmp-cases greater h k = absurd (k refl)

pub AtMost-antisym : (a b : Str) → AtMost a b → AtMost b a → a ≡ b
AtMost-antisym a b h k =
    memcmp-same a b (Cmp-cases (memcmp a b) (λ l. k (memcmp_swap_less a b l)) h)
