-- ===== src/Lib.antt =====
-- The core of RAUC (kirkstone/local/rauc): which slot boots next, and how the boot loader is told.
--
-- RAUC keeps redundant copies of a system in slots. A slot is a row of the slot table of the
-- configuration; a slot with a boot name can be booted. The boot loader decides by variables of its
-- own which slot it boots, and RAUC reads and writes them with the boot loader's tool. The
-- parts, with paths below kirkstone/local/rauc:
--
-- - Prelude, Exec: lists over native numbers, texts (lists of bytes), printed numbers; results of
--   functions that set a GError, and actions on a state that end in such a result.
-- - Process, Glib: what is not part of the repository and stands as a parameter. `Processes` is a
--   function from argument vectors to outcomes on a state of the machine, `Glib` holds the text
--   functions of GLib that the code calls, and `GlibLaws` what the code relies on of them.
-- - Slot: src/slot.c and include/slot.h, the slot table and the questions asked of it.
-- - Context: the fields of RaucConfig (include/config_file.h) that the modelled functions read.
-- - Boot: src/bootchooser.c. Boot/Names has the boot order as a text (bootchooser_order_primary).
--   Boot/Grub has the GRUB backend (grub_env_get, grub_env_set, grub_get_state, grub_set_state,
--   grub_get_primary, grub_set_primary), Boot/Uboot the U-Boot backend (the same with uboot_). The
--   definitions have the names of the C functions; a loop of a function is a definition of its own
--   (grub_scan, grub_match and so on). Boot/Barebox has the barebox backend, Boot/Efi the EFI
--   backend with the matches of its regular expressions as the parameter `EfiRegex`, and
--   Boot/Custom the one that calls a program of the integrator. Boot/Dispatch has the functions
--   r_boot_* that choose the backend by the name of the boot loader (backend_of). Boot/Hygiene,
--   Boot/Owners and Boot/Env have the conditions under which what is written is read back: boot
--   names without white space, one slot for each boot name, environment entries without line breaks.
-- - Manifest: include/manifest.h, and in Manifest/Check the checks of src/manifest.c. A check is an
--   action on the manifest, since one of them sets sizes of images. Manifest/Images, Manifest/External
--   and Manifest/Internal have what the checks establish.
-- - Update: the table of src/update_handler.c and get_update_handler; g_pattern_match_simple() is a
--   parameter, and Update/Shield has what the code relies on of it.
-- - Install: src/install.c. Install/States has determine_slot_states, Install/BootStates
--   determine_boot_states, Install/Target determine_target_install_group; realpath() is a parameter.
--   Install/Plans has r_install_make_plans, Install/SlotPlan handle_slot_install_plan, Install/Handler
--   launch_and_wait_default_handler with the checks before it and r_mark_active of src/mark.c,
--   Install/Bundle do_install_bundle, verify_compatible and check_version_limits. What
--   they call of other components is the interface `Device` in Install/Device, on a state that the
--   client chooses: the boot selection, the status file, the update handlers and the artifacts.
--   Nothing is relied on of a device: what is shown of an installation is shown of the log that
--   Install/Device/Logged keeps of the calls to any device and of their success. The
--   interface `Bundles` in Install/Bundle has the operations on bundles and programs.
-- - Config: of src/config_file.c, fix_grandparent_links and check_unique_slotclasses, and in
--   Config/Formats parse_bundle_formats.
-- - Mark: src/mark.c, get_slot_by_identifier, and in Mark/State r_mark_good and r_mark_bad.
-- - Io: r_pread_exact of src/utils.c; pread() is a parameter.
-- - Compare: three-way comparisons as memcmp() and strcmp() make them, and what makes one a total
--   preorder.
-- - Semver: r_semver_parse and r_semver_less_equal of src/utils.c; GLib's text functions are the
--   parameter `SemverGlib`.
-- - Hex: r_hex_encode and r_hex_decode of src/utils.c; g_ascii_xdigit_value() is a parameter.
-- - Mbr: the boot partition switch of src/mbr.c, as far as the choice of the inactive partition goes
--   (validate_region, is_region_free, r_mbr_switch_get_inactive_partition).
-- - HashIndex: r_hash_index_get_chunk of src/hash_index.c, the search for a chunk by its hash. The
--   loops of the function are definitions of their own (binary_search, first_with_hash,
--   first_valid); SHA256 is a parameter. HashIndex/Search and HashIndex/First have the lemmas on the
--   loops, HashIndex/Find what they find together, HashIndex/Chunk the chunk that is read.
-- - Examples: GLib's functions and the tools written out, and a device on which all is run.
--
-- Pointers to slots are the slots' names, NULL text is `none`, a hash table is the list of its
-- values in the order in which it is iterated. Loops are structural recursion on lists. Four have
-- fuel: `print` prints a number in a base, and 64 rounds print each 64-bit number; `climb` follows
-- parents (r_slot_get_parent_root) with a round more than the table has slots, which no chain of
-- parents without a loop exceeds; `binary_search` has a round more than there are chunks, and
-- `pread_rounds` a round for each byte, which the theorems show to be enough;
-- the 100 steps of `real_parent` are the source's own. Attempts are natural
-- numbers, since load_config refuses negative ones; where they are printed and read back they are
-- below 2^31, as a gint is.
--
-- Not modelled: messages of errors, log output, progress and statistics; the format of the status
-- file; the writing of the MBR; the building of a hash index; the parsing of manifests; bundles, what
-- the update handlers write, custom handlers and hooks, the service and the command line;
-- src/verity_hash.c, a copy of cryptsetup's code.
pub mod Prelude
pub mod Exec
pub mod Process
pub mod Glib
pub mod Slot
pub mod Context
pub mod Boot
mod Examples
pub mod Install
pub mod Compare
pub mod Io
pub mod Mbr
pub mod Hex
pub mod Manifest
pub mod Update
pub mod Config
pub mod Semver
pub mod HashIndex
pub mod Mark
