-- ===== src/Memory.antt =====
-- src/vmmem.c: the memory of the virtual machine.
pub mod Bytes
pub mod Header
pub mod State
pub mod Allocate
pub mod Grow
pub mod Collect
