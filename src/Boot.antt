-- ===== src/Boot.antt =====
-- kirkstone/local/rauc/src/bootchooser.c: the state of the boot slots as the boot loader keeps it.
pub mod Names
pub mod Hygiene
pub mod Owners
pub mod Env
pub mod Grub
pub mod Uboot
pub mod Barebox
pub mod Custom
pub mod Efi
pub mod Dispatch
