-- ===== src/Examples/MbrRun.antt =====
-- The halves of a boot region on a small disk.
use docker_yocto_kirkstone_n.Prelude.{ℕ, ◌≡◌, refl, true, [], ◌∷◌, some}
use docker_yocto_kirkstone_n.Mbr.{MbrTblEntry, Mbr, BootSwitchPartition, Disk, validate_region}

abbrev entry : ℕ → ℕ → MbrTblEntry
entry start size = record { partition_start = start; partition_size = size }

-- The boot partition is the first half of a region of 1 MiB, behind which another partition stands.
abbrev table : Mbr
table = record {
  boot_part = entry 2048 1024;
  others = entry 4096 4096 ∷ entry 0 0 ∷ entry 0 0 ∷ [];
  magic_number_l = 85;
  magic_number_h = 170;
}

abbrev small_disk : Disk
small_disk = record { sector_size = 512; number_of_sectors = some 65536; first_block = some table }

abbrev second_half : BootSwitchPartition
second_half = record { start = 1572864; size = 524288 }

-- A region that ends behind 2^64 passes as smaller than the disk.
wrapped_region : validate_region 18446744073709551104 1024 512 (some 65536) ≡ true
unfolding validate_region
wrapped_region = refl
