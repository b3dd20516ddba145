-- ===== src/Vm/Program.antt =====
-- What loading a program leaves in a machine of src/vm.c.
use unlambda.Base.{
  ℕ, zero, suc, ◌+◌, ◌-◌, ◌*◌, ◌/◌, ◌^◌, ◌≤◌, ◌<◌, ◌≡◌, refl, ◌∙◌, ◌⊎◌, inl, inr, false, Bool-cases,
  List, [], ◌∷◌, length, replicate, length-replicate, ◌==◌, Return, success, failure, arith,
}
use unlambda.Base.Host.{Host, IsHost}
use unlambda.Base.Run.{done, Returns}
use unlambda.Heap.Blank.{IsBlank}
use unlambda.Heap.Blocks.{free, block, Block, IsHeap}
use unlambda.Heap.Tiled.{Tiled-Agrees}
use unlambda.Heap.Reserve.{NoRoom, Placed, Reserved, reserve_vm_memory_for_program-Reserved}
use unlambda.Instructions.Op
use unlambda.Memory.Bytes.{
  Bytes, store_byte, read_bytes, write_bytes, write_bytes-outside, read_bytes-write_bytes,
  read_bytes-Agrees,
}
use unlambda.Memory.Grow.{reserve_vm_memory_for_program}
use unlambda.Memory.State.{VmMemory}
use unlambda.Vm.State.{no_program, ready, out_of_memory, fatal}
use unlambda.Vm.Load.{Machine, store_program, load_vm_program_from_memory}

-- A machine that holds a program in the first `n` bytes: the program, then HALT, then the heap.
abbrev pub Stored : Machine → List ℕ → List ℕ → ℕ → Machine → Type 0
Stored t name program n t' =
    (read_bytes t'.vm.memory.bytes 0 (length program) ≡ program)
    × ((x : ℕ) → length program ≤ x → x < t'.vm.memory.heap_start → t'.vm.memory.bytes x ≡ Op.halt)
    × (t'.vm.state ≡ ready)
    × (t'.program_name ≡ name)
    × (t'.vm.call_stack ≡ t.vm.call_stack)
    × (t'.vm.address_stack ≡ t.vm.address_stack)
    × Placed t.vm.memory n t'.vm.memory

-- Loading where the limit is too low, or growth fails.
abbrev pub Unloaded : Machine → ℕ → Machine → Type 0
Unloaded t n t' =
    NoRoom t.vm.memory n t'.vm.memory
    × (t'.vm.state ≡ no_program)
    × (((t'.vm.status ≡ out_of_memory) × (t.vm.memory.max_size < n)) ⊎ (t'.vm.status ≡ fatal))

abbrev pub Loaded : Machine → List ℕ → List ℕ → ℕ → Machine × Return → Type 0
Loaded t name program n (t', success) = Stored t name program n t'
Loaded t name program n (t', failure) = Unloaded t n t'

halts :
    (f : Bytes) (a n x : ℕ) → a ≤ x → x < a + n → write_bytes f a (replicate n Op.halt) x ≡ Op.halt
unfolding write_bytes
halts f a zero x low high = absurd (omega arith)
halts f a (suc n) x low high = elim (Bool-cases (x == a)) [
  | inl e ↦
      write_bytes-outside (store_byte f a Op.halt) (a + 1) (replicate n Op.halt) x
        (inl (ground (arith, e)))
      ∙ ground (arith, e)
  | inr e ↦ halts (store_byte f a Op.halt) (a + 1) n x (ground (arith, e)) (omega arith)
]

-- The program area is below the heap, so that storing a program leaves the heap as it is.
module _ (m : VmMemory) (program : List ℕ) where
  abbrev rest : ℕ
  rest = m.heap_start - length program

  abbrev copied : Bytes
  copied = write_bytes m.bytes 0 program

  abbrev stored : Bytes
  stored = write_bytes copied (length program) (replicate rest Op.halt)

  module _ (fits : length program ≤ m.heap_start) where
    stored-program : read_bytes stored 0 (length program) ≡ program
    stored-program =
        read_bytes-Agrees 0 (length program)
          (λ x low high. write_bytes-outside copied (length program) _ x (inl (omega arith)))
        ∙ read_bytes-write_bytes m.bytes 0 program

    stored-halt : (x : ℕ) → length program ≤ x → x < m.heap_start → stored x ≡ Op.halt
    stored-halt x low high = halts copied (length program) rest x low (omega (arith, fits))

    stored-above : (x : ℕ) → m.heap_start ≤ x → stored x ≡ m.bytes x
    stored-above x low =
        write_bytes-outside copied (length program) (replicate rest Op.halt) x
          (inr (omega (arith, fits, length-replicate rest Op.halt)))
        ∙ write_bytes-outside m.bytes 0 program x (inr (omega (arith, fits)))

    stored-IsHeap : (bs : List Block) → IsHeap m bs → IsHeap (record m { bytes = stored }) bs
    stored-IsHeap bs h = record {
      tiled =
          Tiled-Agrees m.bytes stored m.heap_start bs m.size 0 (λ x low high. stored-above x low)
            h.tiled;
      first = h.first;
      count = h.count;
      program = h.program;
      limited = h.limited;
      small = h.small;
      placed = h.placed;
    }

Placed-fits : (m₀ m : VmMemory) (n : ℕ) → Placed m₀ n m → n ≤ m.heap_start
Placed-fits m₀ m n (fits, limit, inl (at, h)) = omega (arith, at)
Placed-fits m₀ m n (fits, limit, inr (few, at, count, first)) = omega (arith, at, fits)

stored-Placed :
    (m₀ m : VmMemory) (n : ℕ) (program : List ℕ)
    → length program ≤ m.heap_start
    → Placed m₀ n m
    → Placed m₀ n (record m { bytes = stored m program })
stored-Placed m₀ m n program inside (fits, limit, inl (at, h)) = (
  fits,
  limit,
  inl (at, stored-IsHeap m program inside (block free false (m.size - n - 8) ∷ []) h),
)
stored-Placed m₀ m n program inside (fits, limit, inr out) = (fits, limit, inr out)

-- Loading a program of at least one byte and of less than 2^63 bytes into a machine without one, whose
-- memory is one free block with no area in front of it, as creation leaves it, always returns. On success the
-- memory starts with the program, HALT instructions follow up to the heap, and the heap is one free
-- block, or empty; the machine is ready and keeps its stacks. Otherwise the machine still has no
-- program, and its status is that memory is short, if the limit is below the program's size rounded
-- up, or a fatal error, if a reallocation failed.
pub load_vm_program_from_memory-Loaded :
    (host : Host) (t : Machine) (name program : List ℕ)
    → IsHost host
    → IsBlank t.vm.memory
    → t.vm.state ≡ no_program
    → 0 < length program
    → length program < 2 ^ 63
    → Returns
        (load_vm_program_from_memory host t name program)
        (Loaded t name program ((length program + 7) / 8 * 8))
unfolding load_vm_program_from_memory store_program
load_vm_program_from_memory-Loaded host t name program lawful h empty some_byte low =
    let (r, run, out) =
      reserve_vm_memory_for_program-Reserved host lawful t.vm.memory (length program) h some_byte
        low in
    go r run out
  where
    go :
        (r : VmMemory × Return)
        → reserve_vm_memory_for_program host t.vm.memory (length program) ≡ done r
        → Reserved t.vm.memory ((length program + 7) / 8 * 8) r
        → Returns
            (load_vm_program_from_memory host t name program)
            (Loaded t name program ((length program + 7) / 8 * 8))
    go (m, success) run out =
        let inside : length program ≤ m.heap_start =
          omega (arith, Placed-fits t.vm.memory m ((length program + 7) / 8 * 8) out) in
        let m' : VmMemory = record m { bytes = stored m program } in
        (
          (
            record t { vm = record t.vm { memory = m'; state = ready }; program_name = name },
            success,
          ),
          ground (arith, empty, h.start, run, inside),
          (
            stored-program m program inside,
            stored-halt m program inside,
            refl,
            refl,
            refl,
            refl,
            stored-Placed t.vm.memory m ((length program + 7) / 8 * 8) program inside out,
          ),
        )
    go (m, failure) run (blank, inl (status, full)) = (
      (record t { vm = record t.vm { memory = m; status = out_of_memory } }, failure),
      ground (arith, empty, h.start, run, status),
      ((blank, inl (status, full)), empty, inl (refl, full)),
    )
    go (m, failure) run (blank, inr status) = (
      (record t { vm = record t.vm { memory = m; status = fatal } }, failure),
      ground (arith, empty, h.start, run, status),
      ((blank, inr status), empty, inr refl),
    )
