-- ===== src/Vm.antt =====
-- src/vm.c: the virtual machine.
pub mod State
pub mod Blocks
pub mod Functions
pub mod Continuations
pub mod Step
pub mod Words
pub mod Call
pub mod Return
pub mod Transfer
pub mod Load
pub mod Create
pub mod Program
