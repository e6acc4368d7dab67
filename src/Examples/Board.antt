-- ===== src/Examples/Board.antt =====
-- A device with two root file systems, each with an application partition, and a rescue system.
use docker_yocto_kirkstone_n.Prelude.{
  ℕ, ◌≢◌, ◌≡◌, refl, sym, ap, In, List, [], ◌∷◌, Option, none, some, Str, codes, inl, inr, false,
  true, arith,
}
use docker_yocto_kirkstone_n.Slot.{RaucSlot, unknown}
use docker_yocto_kirkstone_n.Context.{RaucConfig}
use docker_yocto_kirkstone_n.Boot.Hygiene.{BootName, BootNames}
use docker_yocto_kirkstone_n.Boot.Owners.{Owns}

abbrev pub slot_named : Str → Str → Str → Option Str → Option Str → RaucSlot
slot_named name sclass device bootname parent = record {
  name = name;
  description = none;
  sclass = sclass;
  device = device;
  type = codes "ext4";
  extra_mkfs_opts = [];
  bootname = bootname;
  allow_mounted = false;
  readonly = false;
  install_same = false;
  extra_mount_opts = none;
  resize = false;
  region_start = 0;
  region_size = 0;
  state = unknown;
  boot_good = false;
  parent = parent;
  mount_point = none;
  ext_mount_point = none;
  status = none;
  data_directory = none;
}

abbrev pub rootfs_a : RaucSlot
rootfs_a =
    slot_named (codes "rootfs.0") (codes "rootfs") (codes "/dev/sda2") (some (codes "A")) none

abbrev pub rootfs_b : RaucSlot
rootfs_b =
    slot_named (codes "rootfs.1") (codes "rootfs") (codes "/dev/sda3") (some (codes "B")) none

abbrev pub app_a : RaucSlot
app_a = slot_named (codes "app.0") (codes "app") (codes "/dev/sda4") none (some (codes "rootfs.0"))

abbrev pub app_b : RaucSlot
app_b = slot_named (codes "app.1") (codes "app") (codes "/dev/sda5") none (some (codes "rootfs.1"))

abbrev pub board_slots : List RaucSlot
board_slots = app_a ∷ rootfs_a ∷ rootfs_b ∷ app_b ∷ []

abbrev pub grubenv : Str
grubenv = codes "/boot/grubenv"

abbrev pub board : RaucConfig
board = record {
  system_variant = none;
  system_bootloader = some (codes "grub");
  system_compatible = some (codes "board");
  system_min_bundle_version = none;
  statusfile_path = some (codes "/data/status");
  activate_installed = true;
  preinstall_handler = none;
  postinstall_handler = none;
  artifact_repos = [];
  system_bb_statename = none;
  system_bb_dtbpath = none;
  boot_default_attempts = 3;
  boot_attempts_primary = 0;
  grubenv_path = some grubenv;
  custom_bootloader_backend = none;
  efi_use_bootnext = true;
  slots = board_slots;
  slot_states_determined = false;
}

pub a-BootName : BootName (codes "A")
a-BootName = record { graphic = (omega arith, tt); no_equals = (omega arith, tt); not_empty = cc }

pub b-BootName : BootName (codes "B")
b-BootName = record { graphic = (omega arith, tt); no_equals = (omega arith, tt); not_empty = cc }

abbrev first_byte : Str → ℕ
first_byte [] = 0
first_byte (c ∷ s) = c

pub b-ne-a : codes "B" ≢ codes "A"
b-ne-a e = let same_byte = ap first_byte e in absurd (omega arith)

pub board-BootNames : BootNames board_slots
board-BootNames = (tt, (a-BootName, (b-BootName, (tt, tt))))

pub b-Owns : Owns board_slots rootfs_b (codes "B")
b-Owns = record { listed = inr (inr (inl refl)); named = refl; only = only }
  where
    only : (s : RaucSlot) → In s board_slots → s.bootname ≡ some (codes "B") → s ≡ rootfs_b
    only s (inl e) h = cc
    only s (inr (inl e)) h = cc
    only s (inr (inr (inl e))) h = sym e
    only s (inr (inr (inr (inl e)))) h = cc
    only s (inr (inr (inr (inr e)))) h = absurd e
