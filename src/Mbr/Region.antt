-- ===== src/Mbr/Region.antt =====
-- The inactive partition and the other partitions of the disk.
use docker_yocto_kirkstone_n.Prelude.{ℕ, ◌+◌, ◌-◌, ◌*◌, ◌/◌, ◌%◌, ◌^◌, ◌≤◌, ◌<◌, ◌≡◌, ◌⊎◌, arith}
use docker_yocto_kirkstone_n.Mbr.{MbrTblEntry, Mbr, BootSwitchPartition}

-- The two ranges of bytes have none in common, or the partition is empty.
abbrev pub Disjoint : ℕ → ℕ → ℕ → MbrTblEntry → Type 0
Disjoint sector_size start size e =
    (e.partition_size ≡ 0)
    ⊎ ((start + size ≤ e.partition_start * sector_size)
        ⊎ (e.partition_start * sector_size + e.partition_size * sector_size ≤ start))

-- Its last byte has an address of 64 bits.
abbrev pub Fits : ℕ → MbrTblEntry → Type 0
Fits sector_size e = e.partition_start * sector_size + e.partition_size * sector_size < 2 ^ 64

below_wrap : (n : ℕ) → 0 < n → n < 2 ^ 64 → (n + (2 ^ 64 - 1)) % 2 ^ 64 ≡ n - 1
below_wrap n h k = omega arith

-- Half of the region, at its start or at its middle.
abbrev Half : ℕ → ℕ → BootSwitchPartition → Type 0
Half rs rz part = (part.size ≡ rz / 2) × (rs ≤ part.start) × (part.start + part.size ≤ rs + rz)
