-- ===== src/Examples/HexRun.antt =====
-- Bytes in hexadecimal digits.
use docker_yocto_kirkstone_n.Prelude.{
  ℕ, ◌+◌, ◌-◌, ◌≡◌, refl, ◌&&◌, [], ◌∷◌, Option, none, some, Str, codes, leb, length, if◌then◌else◌,
  arith,
}
use docker_yocto_kirkstone_n.Hex.{
  XdigitLaw, hex_digits, hex_decode, hex_encode, hex_decode-hex_encode,
}

abbrev pub xdigit_value : ℕ → Option ℕ
xdigit_value c =
    if leb b'0' c && leb c b'9'
    then some (c - b'0')
    else if leb b'a' c && leb c b'f'
    then some (c - b'a' + 10)
    else none

xdigit_law : XdigitLaw xdigit_value
xdigit_law d h = ground arith

abbrev bytes : Str
bytes = 15 ∷ 165 ∷ []

encoded : hex_encode bytes ≡ some (codes "0fa5")
unfolding hex_encode hex_digits
encoded = refl

hex_decode-hex_encode_example :
    (hex : Str) × (hex_encode bytes ≡ some hex)
    × (hex_decode xdigit_value hex (length bytes) ≡ some bytes)
hex_decode-hex_encode_example =
    hex_decode-hex_encode xdigit_value xdigit_law 15 (165 ∷ []) (omega arith, (omega arith, tt))
