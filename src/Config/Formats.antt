-- ===== src/Config/Formats.antt =====
-- parse_bundle_formats of kirkstone/local/rauc/src/config_file.c: the formats of bundles that the
-- configuration allows.
use docker_yocto_kirkstone_n.Prelude.{
  Bool, true, false, not, ◌&&◌, ◌||◌, List, [], ◌∷◌, Option, none, some, Str, codes, str_eq, ◌==◌,
  if◌then◌else◌,
}
use docker_yocto_kirkstone_n.Exec.{Result, ok, err, config_invalid_format}
use docker_yocto_kirkstone_n.Glib.{Glib, space}
use docker_yocto_kirkstone_n.Manifest.{
  RManifestBundleFormat, format_plain, format_verity, format_crypt, other_format,
}

-- The bits of bundle_formats_mask.
pub record FormatsMask : Type 0 where
  pub plain : Bool
  pub verity : Bool
  pub crypt : Bool

pub record FormatsScan : Type 0 where
  pub imask : FormatsMask
  pub set : Bool
  pub modify : Bool

abbrev pub empty_mask : FormatsMask
empty_mask = record { plain = false; verity = false; crypt = false }

abbrev pub with_format : RManifestBundleFormat → Bool → FormatsMask → FormatsMask
with_format format_plain b mask = record mask { plain = b }
with_format format_verity b mask = record mask { verity = b }
with_format format_crypt b mask = record mask { crypt = b }
with_format (other_format n) b mask = mask

abbrev pub format_named : Str → Option RManifestBundleFormat
format_named token =
    if str_eq token (codes "plain")
    then some format_plain
    else if str_eq token (codes "verity")
    then some format_verity
    else if str_eq token (codes "crypt")
    then some format_crypt
    else none

-- A format alone: the first one clears the mask.
abbrev pub fix_format : FormatsScan → Option RManifestBundleFormat → Result FormatsScan
fix_format scan none = err config_invalid_format
fix_format scan (some format) = ok (record scan {
  imask = with_format format true (if scan.set then scan.imask else empty_mask);
  set = true;
})

-- A format with a sign.
abbrev pub modify_format : Bool → FormatsScan → Option RManifestBundleFormat → Result FormatsScan
modify_format b scan none = err config_invalid_format
modify_format b scan (some format) =
    ok (record scan { imask = with_format format b scan.imask; modify = true })

unfoldable pub scan_token : FormatsScan → Str → Result FormatsScan
scan_token scan [] = ok scan
scan_token scan (c ∷ token) =
    if c == b'-'
    then modify_format false scan (format_named token)
    else if c == b'+'
    then modify_format true scan (format_named token)
    else fix_format scan (format_named (c ∷ token))

abbrev pub then_scan : Result FormatsScan → (FormatsScan → Result FormatsScan) → Result FormatsScan
then_scan (err e) rest = err e
then_scan (ok scan) rest = rest scan

-- The loop over the tokens.
unfoldable pub scan_tokens : List Str → FormatsScan → Result FormatsScan
scan_tokens [] scan = ok scan
scan_tokens (token ∷ tokens) scan = then_scan (scan_token scan token) (scan_tokens tokens)

abbrev pub is_empty_mask : FormatsMask → Bool
is_empty_mask mask = not (mask.plain || mask.verity || mask.crypt)

abbrev pub accept_formats : Result FormatsScan → Result FormatsMask
accept_formats (err e) = err e
accept_formats (ok scan) =
    if scan.set && scan.modify
    then err config_invalid_format
    else if is_empty_mask scan.imask
    then err config_invalid_format
    else ok scan.imask

unfoldable pub parse_bundle_formats : Glib → FormatsMask → Str → Result FormatsMask
parse_bundle_formats g mask config =
    accept_formats
      (scan_tokens (g.strsplit config space) (record { imask = mask; set = false; modify = false }))
