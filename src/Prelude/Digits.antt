-- ===== src/Prelude/Digits.antt =====
-- Numbers printed in a base, as `%i`, `%u` and `%x` print them.
use Prim.Native.Nat.{ℕ, zero, suc, ◌+◌, ◌-◌, ◌/◌, ◌%◌, ◌<◌}
use mathlib.Core.Path.{◌≡◌, refl}
use mathlib.Core.Logic.{◌≢◌, inl, inr}
use native.Mathlib.Omega.{arith}
use mathlib.Core.List.{[], ◌∷◌, ◌++◌}
use docker_yocto_kirkstone_n.Prelude.Tests.{ltb, ◌==◌, Bool-cases, if◌then◌else◌}
use docker_yocto_kirkstone_n.Prelude.Lists.{All, All-append}
use docker_yocto_kirkstone_n.Prelude.Text.{Str, codes}

-- "0123456789abcdef"[d]
abbrev pub digit : ℕ → ℕ
digit d = if ltb d 10 then b'0' + d else b'a' + (d - 10)

-- A round for each unit of fuel; 64 rounds print any 64-bit number in any base.
unfoldable pub digits : ℕ → ℕ → ℕ → Str
digits base zero n = []
digits base (suc fuel) n =
    let rest = digits base fuel (n / base) in if n == 0 then [] else rest ++ (digit (n % base) ∷ [])

unfoldable pub print : ℕ → ℕ → Str
print base n = if n == 0 then digit 0 ∷ [] else digits base 64 n

unfoldable pub print_dec : ℕ → Str
print_dec n = print 10 n

unfoldable pub print_hex : ℕ → Str
print_hex n = print 16 n

print_examples : (print_dec 1203 ≡ codes "1203") × (print_hex 0x1f0 ≡ codes "1f0")
unfolding print_dec print_hex print digits
print_examples = (refl, refl)

snoc-ne-nil : (s : Str) (c : ℕ) → s ++ (c ∷ []) ≢ []
snoc-ne-nil [] c = cc
snoc-ne-nil (x ∷ s) c = cc

pub print_hex-ne-nil : (n : ℕ) → print_hex n ≢ []
unfolding print_hex print digits
print_hex-ne-nil n = ground (arith, snoc-ne-nil (digits 16 63 (n / 16)) (digit (n % 16)))

digit_graphic : (d : ℕ) → 32 < digit d
digit_graphic d = ground arith

-- The last byte of a printed number is a digit.
pub print_hex_last :
    (n : ℕ) → (front : Str) × (c : ℕ) × (32 < c) × (print_hex n ≡ front ++ (c ∷ []))
unfolding print_hex print digits
print_hex_last n = elim (Bool-cases (n == 0)) [
  | inl h ↦ ([], digit 0, digit_graphic 0, rw h)
  | inr h ↦ (digits 16 63 (n / 16), digit (n % 16), digit_graphic (n % 16), rw h)
]

digits_graphic : (base f n : ℕ) → All (λ c. 32 < c) (digits base f n)
unfolding digits
digits_graphic base zero n = tt
digits_graphic base (suc f) n = elim (Bool-cases (n == 0)) [
  | inl e ↦ rw e tt
  | inr e ↦ rw e (
      All-append (λ c. 32 < c) (digits base f (n / base)) (digit (n % base) ∷ [])
        (digits_graphic base f (n / base)) (digit_graphic (n % base), tt))
]

-- A printed number has no white space and no control characters.
pub print_dec_graphic : (n : ℕ) → All (λ c. 32 < c) (print_dec n)
unfolding print_dec print
print_dec_graphic n = elim (Bool-cases (n == 0)) [
  | inl e ↦ rw e (digit_graphic 0, tt)
  | inr e ↦ rw e (digits_graphic 10 64 n)
]
