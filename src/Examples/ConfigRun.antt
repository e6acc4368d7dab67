-- ===== src/Examples/ConfigRun.antt =====
-- A slot whose parent has a parent, and texts for bundle formats.
use docker_yocto_kirkstone_n.Prelude.{
  ◌≡◌, refl, List, [], ◌∷◌, none, some, codes, str_eq, find_first, inl, true, false,
}
use docker_yocto_kirkstone_n.Exec.{ok, err, for_each, config_invalid_format}
use docker_yocto_kirkstone_n.Slot.{RaucSlot, lookup}
use docker_yocto_kirkstone_n.Config.{
  real_parent, set_parent, fix_grandparent_links, check_unique_slotclasses,
}
use docker_yocto_kirkstone_n.Config.Links.{RootedName}
use docker_yocto_kirkstone_n.Config.Parents.{fix_grandparent_links-Rooted}
use docker_yocto_kirkstone_n.Config.Formats.{
  FormatsMask, scan_token, scan_tokens, parse_bundle_formats,
}
use docker_yocto_kirkstone_n.Examples.Split.{pieces, strsplit}
use docker_yocto_kirkstone_n.Examples.GlibModel.{glib}
use docker_yocto_kirkstone_n.Examples.Board.{slot_named, rootfs_a, app_a, board_slots}

abbrev data_a : RaucSlot
data_a = slot_named (codes "data.0") (codes "data") (codes "/dev/sda6") none (some (codes "app.0"))

abbrev nested : List RaucSlot
nested = data_a ∷ app_a ∷ rootfs_a ∷ []

abbrev fixed : List RaucSlot
fixed = (record data_a { parent = some (codes "rootfs.0") }) ∷ app_a ∷ rootfs_a ∷ []

grandparent_gone : fix_grandparent_links nested ≡ (ok tt, fixed)
unfolding fix_grandparent_links for_each real_parent set_parent lookup find_first str_eq
grandparent_gone = refl

fix_grandparent_links-Rooted_example : RootedName fixed (codes "data.0")
fix_grandparent_links-Rooted_example =
    fix_grandparent_links-Rooted nested fixed grandparent_gone (codes "data.0") (inl refl)

board_classes : check_unique_slotclasses [] board_slots ≡ (ok tt, board_slots)
unfolding check_unique_slotclasses for_each find_first
board_classes = refl

abbrev all_formats : FormatsMask
all_formats = record { plain = true; verity = true; crypt = true }

plain_removed :
    parse_bundle_formats glib all_formats (codes "-plain  +verity")
    ≡ ok (record { plain = false; verity = true; crypt = true })
unfolding parse_bundle_formats scan_tokens scan_token strsplit pieces str_eq
plain_removed = refl

only_verity :
    parse_bundle_formats glib all_formats (codes "verity")
    ≡ ok (record { plain = false; verity = true; crypt = false })
unfolding parse_bundle_formats scan_tokens scan_token strsplit pieces str_eq
only_verity = refl

mixed_refused :
    parse_bundle_formats glib all_formats (codes "verity -plain") ≡ err config_invalid_format
unfolding parse_bundle_formats scan_tokens scan_token strsplit pieces str_eq
mixed_refused = refl
