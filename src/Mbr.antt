-- ===== src/Mbr.antt =====
-- kirkstone/local/rauc/src/mbr.c: the boot partition of the MBR that is not in use. What the ioctl() and read() calls
-- return is a parameter. Numbers are unsigned and of 64 bits, sector sizes of 32 bits.
pub mod Region
use docker_yocto_kirkstone_n.Prelude.{
  ℕ, ◌+◌, ◌-◌, ◌*◌, ◌/◌, ◌%◌, ◌^◌, Bool, true, false, ◌&&◌, ◌||◌, List, [], ◌∷◌, Option, none, some,
  ltb, leb, ◌==◌, not, if◌then◌else◌,
}
use docker_yocto_kirkstone_n.Exec.{Result, ok, err, update_failed}

-- The fields that are read, in the byte order of the machine.
pub record MbrTblEntry : Type 0 where
  pub partition_start : ℕ
  pub partition_size : ℕ

-- The entry of the boot partition, and the three others.
pub record Mbr : Type 0 where
  pub boot_part : MbrTblEntry
  pub others : List MbrTblEntry
  pub magic_number_l : ℕ
  pub magic_number_h : ℕ

pub record BootSwitchPartition : Type 0 where
  pub start : ℕ
  pub size : ℕ

-- The device: get_sectorsize(), BLKGETSIZE, and the first 512 bytes, none where a call fails.
pub record Disk : Type 0 where
  pub sector_size : ℕ
  pub number_of_sectors : Option ℕ
  pub first_block : Option Mbr

abbrev pub size_fits : ℕ → ℕ → ℕ → Option ℕ → Bool
size_fits start size sector_size none = false
size_fits start size sector_size (some n) =
    ltb ((start + size) % 2 ^ 64) ((n * sector_size) % 2 ^ 64)

unfoldable pub validate_region : ℕ → ℕ → ℕ → Option ℕ → Bool
validate_region start size sector_size number_of_sectors =
    not (ltb start 512 || size == 0)
    && start % sector_size == 0
    && size % ((2 * sector_size) % 2 ^ 32) == 0
    && size_fits start size sector_size number_of_sectors

unfoldable pub is_mbr : Mbr → Bool
is_mbr mbr = mbr.magic_number_l == 85 && mbr.magic_number_h == 170

abbrev pub p_start : ℕ → MbrTblEntry → ℕ
p_start sector_size e = (e.partition_start * sector_size) % 2 ^ 64

-- The last byte.
abbrev pub p_end : ℕ → MbrTblEntry → ℕ
p_end sector_size e =
    (e.partition_size * sector_size + p_start sector_size e + (2 ^ 64 - 1)) % 2 ^ 64

abbrev pub last_byte : ℕ → ℕ → ℕ
last_byte region_start region_size = (region_start + region_size + (2 ^ 64 - 1)) % 2 ^ 64

unfoldable pub overlaps : ℕ → ℕ → ℕ → MbrTblEntry → Bool
overlaps region_start region_size sector_size e =
    not (e.partition_size == 0)
    && ((leb (p_start sector_size e) region_start && leb region_start (p_end sector_size e))
        || (leb region_start (p_start sector_size e)
            && leb (p_start sector_size e) (last_byte region_start region_size)))

-- The loop over the partitions but the boot partition.
unfoldable pub is_region_free : ℕ → ℕ → ℕ → List MbrTblEntry → Bool
unfolding overlaps
is_region_free region_start region_size sector_size [] = true
is_region_free region_start region_size sector_size (e ∷ entries) =
    not (overlaps region_start region_size sector_size e)
    && is_region_free region_start region_size sector_size entries

abbrev pub partition_at : ℕ → ℕ → Result BootSwitchPartition
partition_at start size = ok (record { start = start; size = size })

-- The half of the region where the boot partition is not.
abbrev pub other_half : ℕ → ℕ → ℕ → ℕ → Result BootSwitchPartition
other_half region_start region_size sector_size boot_start =
    if boot_start == 0
    then err update_failed
    else if region_start / sector_size == boot_start
    then partition_at ((region_start + region_size / 2) % 2 ^ 64) (region_size / 2)
    else if ((region_start + region_size / 2) % 2 ^ 64) / sector_size == boot_start
    then partition_at region_start (region_size / 2)
    else err update_failed

abbrev pub in_free_region : ℕ → ℕ → ℕ → Mbr → Result BootSwitchPartition
in_free_region region_start region_size sector_size mbr =
    if is_mbr mbr && is_region_free region_start region_size sector_size mbr.others
    then other_half region_start region_size sector_size mbr.boot_part.partition_start
    else err update_failed

abbrev pub in_block : ℕ → ℕ → ℕ → Option Mbr → Result BootSwitchPartition
in_block region_start region_size sector_size none = err update_failed
in_block region_start region_size sector_size (some mbr) =
    in_free_region region_start region_size sector_size mbr

unfoldable pub get_inactive_partition : Disk → ℕ → ℕ → Result BootSwitchPartition
unfolding validate_region is_mbr is_region_free
get_inactive_partition disk region_start region_size =
    if validate_region region_start region_size disk.sector_size disk.number_of_sectors
    then in_block region_start region_size disk.sector_size disk.first_block
    else err update_failed
