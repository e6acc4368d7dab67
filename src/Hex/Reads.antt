-- ===== src/Hex/Reads.antt =====
-- What hexadecimal digits say, pair by pair, and r_hex_decode (kirkstone/local/rauc/src/utils.c) on them.
use docker_yocto_kirkstone_n.Prelude.{
  ℕ, ◌+◌, ◌*◌, ◌≡◌, refl, sym, ap, [], ◌∷◌, Option, none, some, Str, length, ◌==◌, Bool, true,
  false, Bool-cases, inl, inr, if◌then◌else◌, arith,
}
use docker_yocto_kirkstone_n.Hex.{byte_before, hex_pairs, hex_decode}

module _ (xdigit_value : ℕ → Option ℕ) where
  -- Each two digits are one byte, the upper half first.
  unfoldable pub Reads : Str → Str → Type 0
  Reads [] raw = raw ≡ []
  Reads (a ∷ []) raw = ⊥
  Reads (a ∷ b ∷ hex) raw =
      (upper : ℕ) × (lower : ℕ) × (rest : Str) × (xdigit_value a ≡ some upper)
      × (xdigit_value b ≡ some lower)
      × (raw ≡ (upper * 16 + lower) ∷ rest)
      × Reads hex rest

  some_same : {a b : Str} → some a ≡ some b → a ≡ b
  some_same h = cc

  hex_pairs-Reads : (hex raw : Str) → hex_pairs xdigit_value hex ≡ some raw → Reads hex raw
  unfolding hex_pairs Reads
  hex_pairs-Reads [] raw h = sym (some_same h)
  hex_pairs-Reads (a ∷ []) raw h = cc
  hex_pairs-Reads (a ∷ b ∷ hex) raw h =
      by_digits (xdigit_value a) (xdigit_value b) (hex_pairs xdigit_value hex) refl refl
        (λ rest q. hex_pairs-Reads hex rest q) h
    where
      by_digits :
          (u l : Option ℕ) (r : Option Str)
          → xdigit_value a ≡ u
          → xdigit_value b ≡ l
          → ((rest : Str) → r ≡ some rest → Reads hex rest)
          → byte_before u l r ≡ some raw
          → Reads (a ∷ b ∷ hex) raw
      by_digits (some u) (some l) (some rest) e f read q =
          (u, l, rest, e, f, sym (some_same q), read rest refl)
      by_digits (some u) (some l) none e f read q = cc
      by_digits (some u) none r e f read q = cc
      by_digits none l r e f read q = cc

  Reads-hex_pairs : (hex raw : Str) → Reads hex raw → hex_pairs xdigit_value hex ≡ some raw
  unfolding hex_pairs Reads
  Reads-hex_pairs [] raw h = ap some (sym h)
  Reads-hex_pairs (a ∷ []) raw h = absurd h
  Reads-hex_pairs (a ∷ b ∷ hex) raw (u, l, rest, e, f, q, r) =
      rw (e, f, Reads-hex_pairs hex rest r, q)

  length-Reads : (hex raw : Str) → Reads hex raw → length hex ≡ length raw * 2
  unfolding Reads
  length-Reads [] raw h = rw h
  length-Reads (a ∷ []) raw h = absurd h
  length-Reads (a ∷ b ∷ hex) raw (u, l, rest, e, f, q, r) =
      rw q (omega (arith, length-Reads hex rest r))

  -- Decoding fails unless the digits say this number of bytes.
  pub hex_decode-Reads :
      (hex raw : Str) (len : ℕ)
      → hex_decode xdigit_value hex len ≡ some raw
      → Reads hex raw × (length raw ≡ len)
  unfolding hex_decode
  hex_decode-Reads hex raw len h = elim (Bool-cases (length hex == len * 2)) [
    | inl e ↦ found e (hex_pairs-Reads hex raw (taken true e h))
    | inr e ↦ absurd (differ (refused false e h))
  ]
    where
      taken :
          (b : Bool)
          → (length hex == len * 2) ≡ b
          → (if length hex == len * 2 then hex_pairs xdigit_value hex else none) ≡ some raw
          → (if b then hex_pairs xdigit_value hex else none) ≡ some raw
      taken b e q = rw (sym e) q

      refused :
          (b : Bool)
          → (length hex == len * 2) ≡ b
          → (if length hex == len * 2 then hex_pairs xdigit_value hex else none) ≡ some raw
          → (if b then hex_pairs xdigit_value hex else none) ≡ some raw
      refused b e q = rw (sym e) q

      differ : none ≡ some raw → ⊥
      differ q = cc

      found : (length hex == len * 2) ≡ true → Reads hex raw → Reads hex raw × (length raw ≡ len)
      found e r = (r, halves (length hex) (length raw) len e (length-Reads hex raw r))
        where
          halves : (m n k : ℕ) → (m == k * 2) ≡ true → m ≡ n * 2 → n ≡ k
          halves m n k e q = ground arith

  pub Reads-hex_decode :
      (hex raw : Str) (len : ℕ)
      → Reads hex raw
      → length raw ≡ len
      → hex_decode xdigit_value hex len ≡ some raw
  unfolding hex_decode
  Reads-hex_decode hex raw len r e =
      rw (doubled (length hex) (length raw) len e (length-Reads hex raw r))
        (Reads-hex_pairs hex raw r)
    where
      doubled : (m n k : ℕ) → n ≡ k → m ≡ n * 2 → (m == k * 2) ≡ true
      doubled m n k e q = ground arith
