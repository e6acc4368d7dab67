-- ===== src/Examples/GlibModel.antt =====
-- The parameter `Glib` with each function written out, and its laws.
use docker_yocto_kirkstone_n.Prelude.{refl}
use docker_yocto_kirkstone_n.Glib.{Glib, GlibLaws}
use docker_yocto_kirkstone_n.Examples.Split.{
  strstrip, strstrip_line, strsplit, strchomp, data_lines, data_lines_two, strsplit-join,
  strsplit-Lacks, strchomp_graphic, strchomp_newline,
}
use docker_yocto_kirkstone_n.Examples.Numbers.{
  strtoull, strtoull_checked, strtoull_checked-print_dec, strtoull_digit, strtoull-print_hex,
}

abbrev pub glib : Glib
glib = record {
  strsplit = strsplit;
  strchomp = strchomp;
  strstrip = strstrip;
  strtoull = strtoull;
  strtoull_checked = strtoull_checked;
  data_lines = data_lines;
}

pub glib_laws : GlibLaws glib
unfolding strsplit strchomp
glib_laws = record {
  strsplit-join = strsplit-join;
  strsplit-nil = λ sep. refl;
  strchomp-nil = refl;
  strchomp_graphic = strchomp_graphic;
  strchomp_newline = strchomp_newline;
  strsplit-Lacks = strsplit-Lacks;
  strtoull_digit = strtoull_digit;
  strtoull-print_hex = strtoull-print_hex;
  strtoull_checked-print_dec = strtoull_checked-print_dec;
  data_lines_two = data_lines_two;
  strstrip_line = strstrip_line;
}
