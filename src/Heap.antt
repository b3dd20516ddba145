-- ===== src/Heap.antt =====
-- The heap of src/vmmem.c as a list of blocks: what its bytes say, and what each operation does to
-- the list.
pub mod Blocks
pub mod Tiled
pub mod Free
pub mod Find
pub mod Untouched
pub mod Insert
pub mod Allocate
pub mod FirstFit
pub mod Blank
pub mod Reserve
pub mod Swept
pub mod Sweep
pub mod Release
pub mod Survivors
pub mod Loop
pub mod Collect
pub mod Unmark
pub mod Reclaim
