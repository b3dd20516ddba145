-- ===== src/Base/Host.antt =====
-- The allocator of the C library, which is not code of this repository: `malloc` and `realloc`
-- return an address, or nothing. The laws are what the C standard says of a block: it lies in the
-- address space with one address to spare behind it.
use Prim.Native.Nat.{ℕ, ◌+◌, ◌^◌, ◌<◌}
use mathlib.Core.Path.{◌≡◌}
use mathlib.Core.Option.{Option, some}

pub record Host : Type 0 where
  pub malloc : ℕ → Option ℕ
  pub realloc : ℕ → ℕ → Option ℕ

pub record IsHost (h : Host) : Type 0 where
  pub malloc_fits : (n p : ℕ) → h.malloc n ≡ some p → p + n < 2 ^ 64
  pub realloc_fits : (old n p : ℕ) → h.realloc old n ≡ some p → p + n < 2 ^ 64
