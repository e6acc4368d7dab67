-- ===== src/Hex.antt =====
-- kirkstone/local/rauc/src/utils.c: bytes as hexadecimal digits. g_ascii_xdigit_value() is a parameter, none for -1.
pub mod Reads
use docker_yocto_kirkstone_n.Prelude.{
  ℕ, ◌+◌, ◌*◌, ◌/◌, ◌%◌, ◌<◌, ◌≡◌, refl, ap, [], ◌∷◌, Option, none, some, Str, length, ◌==◌, All,
  Bool, true, false, if◌then◌else◌, arith,
}
use docker_yocto_kirkstone_n.Prelude.Digits.{digit}

-- The manual of g_ascii_xdigit_value: the digits 0-9 and a-f have their values.
abbrev pub XdigitLaw : (ℕ → Option ℕ) → Type 0
XdigitLaw xdigit_value = (d : ℕ) → d < 16 → xdigit_value (digit d) ≡ some d

-- upper << 4 | lower
abbrev pub byte_before : Option ℕ → Option ℕ → Option Str → Option Str
byte_before (some upper) (some lower) (some raw) = some ((upper * 16 + lower) ∷ raw)
byte_before _ _ _ = none

module _ (xdigit_value : ℕ → Option ℕ) where
  -- The loop over the pairs of digits.
  unfoldable pub hex_pairs : Str → Option Str
  hex_pairs [] = some []
  hex_pairs (a ∷ []) = none
  hex_pairs (a ∷ b ∷ hex) = byte_before (xdigit_value a) (xdigit_value b) (hex_pairs hex)

  unfoldable pub hex_decode : Str → ℕ → Option Str
  unfolding hex_pairs
  hex_decode hex len = if length hex == len * 2 then hex_pairs hex else none

unfoldable pub hex_digits : Str → Str
hex_digits [] = []
hex_digits (c ∷ raw) = digit (c / 16) ∷ digit (c % 16) ∷ hex_digits raw

-- The assertion aborts for no bytes.
unfoldable pub hex_encode : Str → Option Str
unfolding hex_digits
hex_encode [] = none
hex_encode (c ∷ raw) = some (hex_digits (c ∷ raw))

length-hex_digits : (raw : Str) → length (hex_digits raw) ≡ length raw * 2
unfolding hex_digits
length-hex_digits [] = refl
length-hex_digits (c ∷ raw) = omega (arith, length-hex_digits raw)

module _ (xdigit_value : ℕ → Option ℕ) (law : XdigitLaw xdigit_value) where
  hex_pairs-hex_digits :
      (raw : Str) → All (λ c. c < 256) raw → hex_pairs xdigit_value (hex_digits raw) ≡ some raw
  unfolding hex_pairs hex_digits
  hex_pairs-hex_digits [] h = refl
  hex_pairs-hex_digits (c ∷ raw) (h, hs) =
      rw (law (c / 16) (omega arith), law (c % 16) (omega arith), hex_pairs-hex_digits raw hs)
        (ap (λ (b : ℕ). some (b ∷ raw)) (omega arith))

  -- What r_hex_encode writes for at least one byte, r_hex_decode reads back, given how many bytes
  -- they were.
  pub hex_decode-hex_encode :
      (c : ℕ) (raw : Str)
      → All (λ b. b < 256) (c ∷ raw)
      → (hex : Str) × (hex_encode (c ∷ raw) ≡ some hex)
        × (hex_decode xdigit_value hex (length (c ∷ raw)) ≡ some (c ∷ raw))
  unfolding hex_encode hex_decode
  hex_decode-hex_encode c raw h =
      (hex_digits (c ∷ raw), refl, decoded (length-hex_digits (c ∷ raw)))
    where
      decoded :
          length (hex_digits (c ∷ raw)) ≡ length (c ∷ raw) * 2
          → (if length (hex_digits (c ∷ raw)) == length (c ∷ raw) * 2
              then hex_pairs xdigit_value (hex_digits (c ∷ raw))
              else none)
            ≡ some (c ∷ raw)
      decoded e = by_test (length (hex_digits (c ∷ raw)) == length (c ∷ raw) * 2) (equal _ _ e)
        where
          equal : (m n : ℕ) → m ≡ n → (m == n) ≡ true
          equal m n q = ground arith

          by_test :
              (b : Bool)
              → b ≡ true
              → (if b then hex_pairs xdigit_value (hex_digits (c ∷ raw)) else none) ≡ some (c ∷ raw)
          by_test true q = hex_pairs-hex_digits (c ∷ raw) h
          by_test false q = cc
