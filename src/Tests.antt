-- ===== src/Tests.antt =====
-- Runs of the definitions on concrete inputs.
mod Stacks
mod Heaps
mod Machines
mod Arrays
mod Commanding
mod Assembling
mod Debugging
mod Naming
mod Images
mod Loading
mod Sweeping
