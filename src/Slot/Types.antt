-- ===== src/Slot/Types.antt =====
-- The types of kirkstone/local/rauc/include/slot.h and checksum.h. Text that may be NULL is an
-- `Option`, a pointer to another slot is its name.
use docker_yocto_kirkstone_n.Prelude.{ℕ, Bool, true, false, List, Option, Str, ℤ}

-- `ST_BOOTED` has the bit of `ST_ACTIVE`; the code only compares whole values.
pub data SlotState : Type 0 where
  unknown active inactive booted : SlotState

abbrev pub is_booted : SlotState → Bool
is_booted booted = true
is_booted _ = false

abbrev pub is_inactive : SlotState → Bool
is_inactive inactive = true
is_inactive _ = false

-- GChecksumType of GLib.
pub data GChecksumType : Type 0 where
  md5 sha1 sha256 sha512 sha384 : GChecksumType

-- The size is -1 where the manifest has none.
pub record RaucChecksum : Type 0 where
  pub type : GChecksumType
  pub digest : Option Str
  pub size : ℤ

pub record RaucSlotStatus : Type 0 where
  pub bundle_compatible : Option Str
  pub bundle_version : Option Str
  pub bundle_description : Option Str
  pub bundle_build : Option Str
  pub bundle_hash : Option Str
  pub status : Option Str
  pub checksum : RaucChecksum
  pub installed_txn : Option Str
  pub installed_timestamp : Option Str
  pub installed_count : ℕ
  pub activated_timestamp : Option Str
  pub activated_count : ℕ

pub record RaucSlot : Type 0 where
  pub name : Str
  pub description : Option Str
  pub sclass : Str
  pub device : Str
  pub type : Str
  pub extra_mkfs_opts : List Str
  pub bootname : Option Str
  pub allow_mounted : Bool
  pub readonly : Bool
  pub install_same : Bool
  pub extra_mount_opts : Option Str
  pub resize : Bool
  pub region_start : ℕ
  pub region_size : ℕ
  pub state : SlotState
  pub boot_good : Bool
  pub parent : Option Str
  pub mount_point : Option Str
  pub ext_mount_point : Option Str
  pub status : Option RaucSlotStatus
  pub data_directory : Option Str

pub record RaucSlotType : Type 0 where
  pub name : Str
  pub mountable : Bool
