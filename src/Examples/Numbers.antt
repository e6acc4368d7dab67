-- ===== src/Examples/Numbers.antt =====
-- Reading numbers in a base, written out.
use docker_yocto_kirkstone_n.Prelude.{
  sym, refl, Bool, true, false, not, ℕ, zero, suc, ◌+◌, ◌-◌, ◌*◌, ◌/◌, ◌%◌, ◌^◌, ◌<◌, ◌≡◌, ap, ◌∙◌,
  ◌&&◌, [], ◌∷◌, ◌++◌, append_assoc, append-nil, Str, ltb, leb, ◌==◌, if◌then◌else◌, arith, inl,
  inr, Bool-cases,
}
use native.Mathlib.Nat.{pow-suc}
use docker_yocto_kirkstone_n.Prelude.Digits.{digit, digits, print, print_hex, print_dec}
use docker_yocto_kirkstone_n.Glib.{Parsed}

abbrev pub digit_value : ℕ → ℕ
digit_value c =
    if leb b'0' c && leb c b'9'
    then c - b'0'
    else if leb b'a' c && leb c b'f'
    then c - b'a' + 10
    else 255

unfoldable pub parse : ℕ → ℕ → Str → ℕ
parse base acc [] = acc
parse base acc (c ∷ s) =
    let rest = parse base (acc * base + digit_value c) s in
    if ltb (digit_value c) base then rest else acc

abbrev pub base_of : ℕ → ℕ
base_of base = if base == 0 then 8 else base

unfoldable pub strtoull : Str → ℕ → ℕ
unfolding parse
strtoull s base = parse (base_of base) 0 s

digit_value-digit : (d : ℕ) → d < 16 → digit_value (digit d) ≡ d
digit_value-digit d h = ground arith

parse-digit : (a d : ℕ) (t : Str) → d < 16 → parse 16 a (digit d ∷ t) ≡ parse 16 (a * 16 + d) t
unfolding parse
parse-digit a d t h = rw (digit_value-digit d h) (ground arith)

div_small : (f n : ℕ) → n < 16 ^ suc f → n / 16 < 16 ^ f
div_small f n h = ground (arith, pow-suc 16 f)

parse_hex : (f n : ℕ) (t : Str) → n < 16 ^ f → parse 16 0 (digits 16 f n ++ t) ≡ parse 16 n t
unfolding digits
parse_hex zero n t h = ap (λ k. parse 16 k t) (omega arith)
parse_hex (suc f) n t h = elim (Bool-cases (n == 0)) [
  | inl e ↦ rw e (ap (λ k. parse 16 k t) (ground arith))
  | inr e ↦
      rw (e, append_assoc (digits 16 f (n / 16)) (digit (n % 16) ∷ []) t)
        (parse_hex f (n / 16) (digit (n % 16) ∷ t) (div_small f n h)
          ∙ parse-digit (n / 16) (n % 16) t (omega arith)
          ∙ ap (λ k. parse 16 k t) (omega arith))
]

pub strtoull_digit : (d : ℕ) → d < 8 → strtoull ((b'0' + d) ∷ []) 0 ≡ d
unfolding strtoull parse
strtoull_digit d h = ground arith

parse_hex_all : (f n : ℕ) → n < 16 ^ f → parse 16 0 (digits 16 f n) ≡ n
unfolding parse
parse_hex_all f n h = ap (λ t. parse 16 0 t) (sym (append-nil (digits 16 f n))) ∙ parse_hex f n [] h

pub strtoull-print_hex : (n : ℕ) → n < 2 ^ 64 → strtoull (print_hex n) 16 ≡ n
unfolding strtoull print_hex parse print
strtoull-print_hex n h = elim (Bool-cases (n == 0)) [
  | inl e ↦ rw e (ground arith)
  | inr e ↦ rw e (parse_hex_all 64 n (omega arith))
]

abbrev pub starts : ℕ → Str → Bool
starts base [] = false
starts base (c ∷ s) = ltb (digit_value c) base

unfoldable pub strtoull_checked : Str → ℕ → Parsed
strtoull_checked s base = record {
  value = parse base 0 s;
  at_start = not (starts base s);
  overflow = ltb (2 ^ 64 - 1) (parse base 0 s);
}

div_small_dec : (f n : ℕ) → n < 10 ^ suc f → n / 10 < 10 ^ f
div_small_dec f n h = ground (arith, pow-suc 10 f)

digit_value_dec : (d : ℕ) → d < 10 → digit_value (digit d) ≡ d
digit_value_dec d h = ground arith

parse_dec_digit : (a d : ℕ) (t : Str) → d < 10 → parse 10 a (digit d ∷ t) ≡ parse 10 (a * 10 + d) t
unfolding parse
parse_dec_digit a d t h = rw (digit_value_dec d h) (ground arith)

parse_dec : (f n : ℕ) (t : Str) → n < 10 ^ f → parse 10 0 (digits 10 f n ++ t) ≡ parse 10 n t
unfolding digits
parse_dec zero n t h = ap (λ k. parse 10 k t) (omega arith)
parse_dec (suc f) n t h = elim (Bool-cases (n == 0)) [
  | inl e ↦ rw e (ap (λ k. parse 10 k t) (ground arith))
  | inr e ↦
      rw (e, append_assoc (digits 10 f (n / 10)) (digit (n % 10) ∷ []) t)
        (parse_dec f (n / 10) (digit (n % 10) ∷ t) (div_small_dec f n h)
          ∙ parse_dec_digit (n / 10) (n % 10) t (omega arith)
          ∙ ap (λ k. parse 10 k t) (omega arith))
]

starts_append : (s t : Str) → starts 10 s ≡ true → starts 10 (s ++ t) ≡ true
starts_append [] t h = cc
starts_append (c ∷ s) t h = h

digits_zero : (f m : ℕ) → (m == 0) ≡ true → digits 10 f m ≡ []
unfolding digits
digits_zero zero m h = refl
digits_zero (suc f) m h = rw h

starts-digits : (f n : ℕ) → (n == 0) ≡ false → n < 10 ^ f → starts 10 (digits 10 f n) ≡ true
unfolding digits
starts-digits zero n e h = ground arith
starts-digits (suc f) n e h = rw e (elim (Bool-cases (n / 10 == 0)) [
  | inl z ↦ rw (digits_zero f (n / 10) z, digit_value_dec (n % 10) (omega arith)) (ground arith)
  | inr z ↦
      starts_append (digits 10 f (n / 10)) _ (starts-digits f (n / 10) z (div_small_dec f n h))
])

parse_dec_all : (f n : ℕ) → n < 10 ^ f → parse 10 0 (digits 10 f n) ≡ n
unfolding parse
parse_dec_all f n h = ap (λ t. parse 10 0 t) (sym (append-nil (digits 10 f n))) ∙ parse_dec f n [] h

pub parse-print_dec : (n : ℕ) → n < 2 ^ 32 → parse 10 0 (print_dec n) ≡ n
unfolding print_dec print parse
parse-print_dec n h = elim (Bool-cases (n == 0)) [
  | inl e ↦ rw e (ground arith)
  | inr e ↦ rw e (parse_dec_all 64 n (omega arith))
]

starts-print_dec : (n : ℕ) → n < 2 ^ 32 → starts 10 (print_dec n) ≡ true
unfolding print_dec print
starts-print_dec n h = elim (Bool-cases (n == 0)) [
  | inl e ↦ rw e (ground arith)
  | inr e ↦ rw e (starts-digits 64 n e (omega arith))
]

pub strtoull_checked-print_dec :
    (n : ℕ)
    → n < 2 ^ 32
    → strtoull_checked (print_dec n) 10 ≡ record { value = n; at_start = false; overflow = false }
unfolding strtoull_checked
strtoull_checked-print_dec n h =
    rw (parse-print_dec n h, starts-print_dec n h)
      (ap (λ o. record { value = n; at_start = false; overflow = o }) (ground arith))
