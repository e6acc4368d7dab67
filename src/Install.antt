-- ===== src/Install.antt =====
-- kirkstone/local/rauc/src/install.c: the states of the slots on a running system, and the group of
-- slots that an installation writes to.
pub mod BootStates
pub mod States
pub mod Target
pub mod Roots
pub mod Safety
pub mod Plans
pub mod Device
pub mod SlotPlan
pub mod Handler
pub mod Bundle
