-- ===== src/Tests/Images.antt =====
-- Runs of the definitions for src/vm_image.c.
use unlambda.Base.{
  ℕ, zero, suc, ◌+◌, ap, sym, ◌∙◌, take, take-length, Option, none, ◌≡◌, refl, true, ◌==◌,
  if◌then◌else◌, some, List, [], ◌∷◌, length, drop, slice, overwrite, success, arith,
}
use unlambda.Base.Run.{done, Returns}
use unlambda.Files.{Files, AreRegular, gives, write_to_file}
use unlambda.Image.{ok, write_header, save_symbols, save_vm_program_image, load_vm_program_image}
use unlambda.Image.Save.{Saved, save_vm_program_image-Saved}
use unlambda.Image.RoundTrip.{image_sizes, Reloaded, load_vm_program_image-save_vm_program_image}
use unlambda.Memory.Grow.{place_heap, reserve_vm_memory_for_program, reserve_loop}
use unlambda.Memory.Bytes.{bytes_of, read64, read_bytes, number_of}
use unlambda.Memory.Header.{get_vmm_block_size, get_vmm_block_type}
use unlambda.Memory.State.{VmMemory, VmmStatus, align_to_8}
use unlambda.Symbols.Edits.{created-IsTable, created}
use unlambda.Tests.Stacks.{host}
use unlambda.Tests.Naming.{one_symbol, one_symbol-IsTable}

abbrev Disk : Type 0
Disk = List ℕ × ℕ

-- One regular file on a medium that does not fail, and the offset of its descriptor.
abbrev one_file : Files
one_file = record {
  World = Disk;
  open_fd = λ w flags. some (w.0, 0);
  read = λ w n. let got = slice w.1 n w.0 in ((w.0, w.1 + length got), some got);
  write = λ w bytes. ((overwrite w.1 bytes w.0, w.1 + length bytes), some (length bytes));
  close = λ w. w;
}

take-length-take : (n : ℕ) (xs : List ℕ) → take (length (take n xs)) xs ≡ take n xs
take-length-take zero xs = refl
take-length-take (suc n) [] = refl
take-length-take (suc n) (x ∷ xs) = ap (λ t. x ∷ t) (take-length-take n xs)

abbrev value_or : {A : Type 0} → A → Option A → A
value_or a none = a
value_or a (some b) = b

one_file-AreRegular : AreRegular one_file
unfolding slice
one_file-AreRegular = record {
  content = λ w. w.0;
  offset = λ w. w.1;
  opens = λ w flags w' e.
      let same : w' ≡ (w.0, 0) = ap (value_or w') (sym e) in
      (ap (λ (v : Disk). v.0) same, ap (λ (v : Disk). v.1) same);
  reads = λ w n bytes e.
      let same : bytes ≡ slice w.1 n w.0 = ap (value_or bytes) (sym e) in
      (
        same
            ∙ sym (take-length-take n (drop w.1 w.0))
            ∙ ap (λ (b : List ℕ). take (length b) (drop w.1 w.0)) (sym same),
        refl,
        ap (λ (b : List ℕ). w.1 + length b) (sym same),
      );
  writes = λ w bytes k inside e.
      let same : k ≡ length bytes = ap (value_or k) (sym e) in
      (
        ap (λ b. overwrite w.1 b w.0) (sym (take-length k bytes (omega (arith, same)))),
        ap (λ m. w.1 + m) (sym same),
      );
  closes = λ w. refl;
}

abbrev memory : VmMemory
memory = record {
  base = 4096;
  bytes = λ x. if x == 0 then 56 else 0;
  size = 64;
  max_size = 1024;
  heap_start = 0;
  bytes_free = 56;
  first_free = 0;
  status = VmmStatus.ok;
}

abbrev four_bytes : List ℕ
four_bytes = 1 ∷ 2 ∷ 3 ∷ 4 ∷ []

memory-reserved : reserve_vm_memory_for_program host memory 4 ≡ done (place_heap memory 8, success)
unfolding reserve_vm_memory_for_program reserve_loop place_heap align_to_8 read64 read_bytes
    number_of get_vmm_block_type get_vmm_block_size
memory-reserved = refl

abbrev start_of_disk : Disk
start_of_disk = (9 ∷ [], 0)

save_vm_program_image-Saved_example :
    Saved one_file one_file-AreRegular start_of_disk four_bytes 2 one_symbol.symbols
      (save_vm_program_image one_file start_of_disk four_bytes 2 (some one_symbol))
save_vm_program_image-Saved_example =
    save_vm_program_image-Saved one_file one_file-AreRegular start_of_disk four_bytes 2
      (some one_symbol) (omega arith) (omega arith) (ground arith)

abbrev saved_disk : Disk
saved_disk = (save_vm_program_image one_file start_of_disk four_bytes 2 (some one_symbol)).0

saved :
    save_vm_program_image one_file start_of_disk four_bytes 2 (some one_symbol) ≡ (saved_disk, ok)
unfolding save_vm_program_image write_header write_to_file save_symbols bytes_of
saved = refl

given : gives one_file (saved_disk.0, 0) (image_sizes four_bytes one_symbol.symbols) ≡ true
unfolding save_vm_program_image write_header write_to_file save_symbols overwrite slice bytes_of
given = refl

load_vm_program_image-save_vm_program_image_example :
    Returns
      (load_vm_program_image one_file host 24 saved_disk (λ x. 77) memory (created 20 4096) true)
      (Reloaded one_file four_bytes 2 one_symbol (place_heap memory 8))
load_vm_program_image-save_vm_program_image_example =
    load_vm_program_image-save_vm_program_image one_file one_file-AreRegular host 24 start_of_disk
      saved_disk (saved_disk.0, 0) four_bytes 2 one_symbol memory (place_heap memory 8)
      (created 20 4096) (λ x. 77) saved refl given (omega arith) (omega arith) (omega arith)
      (ground arith) (ground arith) one_symbol-IsTable (created-IsTable 20 4096) refl
      memory-reserved
