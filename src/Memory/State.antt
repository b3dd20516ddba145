-- ===== src/Memory/State.antt =====
-- `VmMemoryImpl` of src/vmmem.c, its accessors, and the pointers into it.
-- A pointer into the memory is its distance from `bytes`, modulo 2 ^ 64; NULL is `none`. Since the
-- memory lies in the address space, a pointer is in bounds exactly if its distance is below `size`.
use Prim.Native.Nat.{bit_and}
use unlambda.Base.{
  ℕ, ◌+◌, ◌-◌, Bool, not, ◌&&◌, Option, none, some, ltb, leb, ◌==◌, if◌then◌else◌, u64, add64,
  sub64,
}
use unlambda.Memory.Bytes.{Bytes, read64, write64}
use unlambda.Memory.Header.{get_vmm_block_size}

-- `statusCode`: 0 and the Vmm...Error constants. The message says the same in words.
pub data VmmStatus : Type 0 where
  ok invalid_argument bad_block max_size_exceeded size_increase_failed : VmmStatus
  not_enough_memory heap_in_use : VmmStatus

-- `base` is the address `memory->bytes`, and `size` is `end - bytes`. The logger is left out.
pub record VmMemory : Type 0 where
  pub base : ℕ
  pub bytes : Bytes
  pub size : ℕ
  pub max_size : ℕ
  pub heap_start : ℕ
  pub bytes_free : ℕ
  pub first_free : ℕ
  pub status : VmmStatus

abbrev pub set_vmm_status : VmMemory → VmmStatus → VmMemory
set_vmm_status m code = record m { status = code }

abbrev pub clear_vmm_status : VmMemory → VmMemory
clear_vmm_status m = set_vmm_status m ok

abbrev pub vmm_heap_size : VmMemory → ℕ
vmm_heap_size m = sub64 m.size m.heap_start

unfoldable pub align_to_8 : ℕ → ℕ
align_to_8 v = bit_and (add64 v 7) 0xFFFF_FFFF_FFFF_FFF8

abbrev pub word_at : VmMemory → ℕ → ℕ
word_at m p = read64 m.bytes p

abbrev pub put_word : VmMemory → ℕ → ℕ → VmMemory
put_word m p v = record m { bytes = write64 m.bytes p v }

-- `(memory->bytes + address) < memory->end`, with the pointer as the machine computes it
unfoldable pub is_valid_vmm_address : VmMemory → ℕ → Bool
is_valid_vmm_address m address = ltb (add64 m.base address) (m.base + m.size)

unfoldable pub ptr_to_vmm_address : VmMemory → ℕ → Option ℕ
ptr_to_vmm_address m address =
    let p = add64 m.base address in
    if leb m.base p && ltb p (m.base + m.size) then some (p - m.base) else none

unfoldable pub vmm_address_for_ptr : VmMemory → ℕ → ℕ
vmm_address_for_ptr m p = if ltb p m.size then p else m.max_size

unfoldable pub next_heap_block_in_vmm : VmMemory → ℕ → Option ℕ
next_heap_block_in_vmm m p =
    let next = u64 (p + (get_vmm_block_size (word_at m p) + 8)) in
    if ltb next m.size then some next else none

unfoldable pub first_free_block_in_vmm : VmMemory → Option ℕ
first_free_block_in_vmm m =
    if (m.first_free == 0) && not (m.heap_start == 0) then none else some m.first_free

unfoldable pub next_free_block_in_vmm : VmMemory → Option ℕ → Option ℕ
next_free_block_in_vmm m none = none
next_free_block_in_vmm m (some p) =
    let next = word_at m (p + 8) in
    if leb m.size p then none else if next == 0 then none else some next

-- Two words: a header of type 0, and the link.
unfoldable pub write_free_block : Bytes → ℕ → ℕ → ℕ → Bytes
write_free_block f p size next = write64 (write64 f p size) (p + 8) next
