-- ===== src/Glib.antt =====
-- The functions of GLib on text that the modelled code calls, as a parameter. GLib is not part of
-- the repository; `GlibLaws` states what its manual says and the code relies on.
use docker_yocto_kirkstone_n.Prelude.{
  ℕ, ◌<◌, ◌+◌, ◌^◌, ◌≡◌, ◌≢◌, Bool, false, List, [], ◌∷◌, ◌++◌, Str, Lacks, All, join,
}
use docker_yocto_kirkstone_n.Prelude.Digits.{print_hex, print_dec}

-- What g_ascii_strtoull() returns: the value, whether `endptr` is still at the start of the text,
-- and whether the value is G_MAXUINT64 and errno set.
pub record Parsed : Type 0 where
  pub value : ℕ
  pub at_start : Bool
  pub overflow : Bool

pub record Glib : Type 0 where
  -- g_strsplit(text, separator, -1)
  pub strsplit : Str → ℕ → List Str
  -- g_strchomp(text)
  pub strchomp : Str → Str
  -- g_strstrip(text)
  pub strstrip : Str → Str
  -- g_ascii_strtoull(text, NULL, base)
  pub strtoull : Str → ℕ → ℕ
  -- g_ascii_strtoull(text, &endptr, base)
  pub strtoull_checked : Str → ℕ → Parsed
  -- the lines that g_data_input_stream_read_line() returns one after another
  pub data_lines : Str → List Str

abbrev pub newline : ℕ
newline = b'\n'

abbrev pub space : ℕ
space = b' '

-- Every byte is a character that is neither white space nor a control character.
abbrev pub Graphic : Str → Type 0
Graphic = All (λ c. space < c)

pub record GlibLaws (g : Glib) : Type 0 where
  pub strsplit-join :
      (ps : List Str) (sep : ℕ)
      → ps ≢ []
      → join ps sep ≢ []
      → All (Lacks sep) ps
      → g.strsplit (join ps sep) sep ≡ ps
  -- the manual: an empty text is split into no parts
  pub strsplit-nil : (sep : ℕ) → g.strsplit [] sep ≡ []
  pub strchomp-nil : g.strchomp [] ≡ []
  pub strchomp_graphic : (s : Str) (c : ℕ) → space < c → g.strchomp (s ++ (c ∷ [])) ≡ s ++ (c ∷ [])
  pub strchomp_newline : (s : Str) → g.strchomp (s ++ (newline ∷ [])) ≡ g.strchomp s
  -- no part holds the separator
  pub strsplit-Lacks : (s : Str) (sep : ℕ) → All (Lacks sep) (g.strsplit s sep)
  -- base 0 reads a lone decimal digit as itself
  pub strtoull_digit : (d : ℕ) → d < 8 → g.strtoull ((b'0' + d) ∷ []) 0 ≡ d
  pub strtoull-print_hex : (n : ℕ) → n < 2 ^ 64 → g.strtoull (print_hex n) 16 ≡ n
  pub strtoull_checked-print_dec :
      (n : ℕ)
      → n < 2 ^ 32
      → g.strtoull_checked (print_dec n) 10
        ≡ record { value = n; at_start = false; overflow = false }
  pub data_lines_two :
      (a b : Str)
      → All (Lacks newline) (a ∷ b ∷ [])
      → g.data_lines (a ++ (newline ∷ (b ++ (newline ∷ [])))) ≡ a ∷ b ∷ []
  pub strstrip_line : (s : Str) → Graphic s → g.strstrip (s ++ (newline ∷ [])) ≡ s
