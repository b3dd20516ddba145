-- ===== src/Image/RoundTrip.antt =====
-- Saving a program image and loading it again: both directions of src/vm_image.c.
use unlambda.Base.{
  ℕ, ◌^◌, ◌≤◌, ◌<◌, ◌≡◌, refl, sym, ◌∙◌, ap, subst, ◌⊎◌, ◌∷◌, inl, inr, true, some, List, [], ◌++◌,
  length, take, slice, append_assoc, success, arith,
}
use unlambda.Base.Host.{Host}
use unlambda.Base.Run.{done, Returns}
use unlambda.Files.{Files, AreRegular, read_only, read_in_full, gives, both_true}
use unlambda.Memory.Bytes.{
  Bytes, bytes_of, number_of-bytes_of, read_bytes, write_bytes, write_bytes-outside,
  read_bytes-write_bytes,
}
use unlambda.Memory.State.{VmMemory}
use unlambda.Memory.Grow.{reserve_vm_memory_for_program}
use unlambda.Symbols.{Symbol, SymbolTable, allocation_failed, table_full, find_symbol, same_name}
use unlambda.Symbols.Names.{find_in, find_symbol-find_in}
use unlambda.Symbols.Table.{IsTable}
use unlambda.Image.{
  Header, ImageStatus, Load, magic, ok, format_error, header_bytes, header_fields, read_header,
  save_vm_program_image, load_vm_program_image,
}
use unlambda.Image.Cursor.{At, open_file-At, read_from_file-At}
use unlambda.Image.Save.{
  AreShort, symbols_bytes, header_of, image_bytes, Saved, save_vm_program_image-Saved,
}
use unlambda.Image.Restore.{symbol_sizes, AreTexts, Restored, load_symbols-Restored}

header_fields-header_bytes :
    (h : Header)
    → h.program_size < 2 ^ 32
    → h.symbols_size < 2 ^ 32
    → h.start < 2 ^ 32
    → header_fields (header_bytes h) ≡ h
unfolding slice bytes_of
header_fields-header_bytes h a b c =
    rw
      (
        number_of-bytes_of 4 h.program_size (omega arith),
        number_of-bytes_of 4 h.symbols_size (omega arith),
        number_of-bytes_of 4 h.start (omega arith),
      )
      refl

length-header_bytes : (h : Header) → 24 ≡ length (header_bytes h)
unfolding bytes_of
length-header_bytes h = refl

-- The symbols that loading leaves, by its result.
abbrev pub AreBack : SymbolTable → SymbolTable → ImageStatus → Type 0
AreBack saved st ok =
    IsTable st
    × (st.symbols ≡ saved.symbols)
    × ((q : List ℕ) → find_symbol st q ≡ find_symbol saved q)
AreBack saved st format_error = (st.status ≡ table_full) ⊎ (st.status ≡ allocation_failed)
AreBack saved st _ = ⊥

Restored-AreBack :
    {W : Type 0} (saved : SymbolTable) (r : W × SymbolTable × ImageStatus)
    → IsTable saved
    → Restored saved.symbols r
    → AreBack saved r.1 r.2
Restored-AreBack saved (w, st, ok) good (table, same) = (
  table,
  same,
  λ q.
      find_symbol-find_in st q
      ∙ table.agrees q
      ∙ ap (find_in q) same
      ∙ sym (good.agrees q)
      ∙ sym (find_symbol-find_in saved q),
)
Restored-AreBack saved (w, st, format_error) good (table, why) = why
Restored-AreBack saved (w, st, _) good out = absurd out

-- The program at the start of the memory, what was reserved behind it, the start address, and the
-- symbols.
abbrev pub Reloaded : (fs : Files) → List ℕ → ℕ → SymbolTable → VmMemory → Load fs → Type 0
Reloaded fs program start saved reserved l =
    (read_bytes l.memory.bytes 0 (length program) ≡ program)
    × ((x : ℕ) → length program ≤ x → l.memory.bytes x ≡ reserved.bytes x)
    × (l.memory.size ≡ reserved.size)
    × (l.start_address ≡ start)
    × AreBack saved l.symbols l.result

-- The reads of an image, in order.
abbrev pub image_sizes : List ℕ → List Symbol → List ℕ
image_sizes program c = 24 ∷ length program ∷ symbol_sizes c

module _ (fs : Files) (h : AreRegular fs) (host : Host) (link_size : ℕ) where
  read_header-At :
      (w : fs.World) (hd : Header) (behind : List ℕ)
      → hd.program_size < 2 ^ 32
      → hd.symbols_size < 2 ^ 32
      → hd.start < 2 ^ 32
      → At fs h w [] (header_bytes hd ++ behind)
      → read_in_full fs w 24 ≡ true
      → (read_header fs w ≡ ((fs.read w 24).0, ok, hd))
        × At fs h (fs.read w 24).0 (header_bytes hd) behind
  unfolding read_header same_name
  read_header-At w hd behind a b c here full =
      let (run, here') =
        read_from_file-At fs h w 24 [] (header_bytes hd) behind (length-header_bytes hd) full
          here in
      let accepted : same_name (take 8 (header_bytes hd)) magic ≡ true = refl in
      (ground (arith, run, accepted, header_fields-header_bytes hd a b c), here')

  -- Success leaves the image.
  Saved-ok :
      (w : fs.World) (program : List ℕ) (start : ℕ) (c : List Symbol) (w' : fs.World)
      → Saved fs h w program start c (w', ok)
      → (rest : List ℕ) × (h.content w' ≡ image_bytes program start c ++ rest)
  Saved-ok w program start c w' (inl (closed, e)) = absurd cc
  Saved-ok w program start c w' (inr (w₁, e, inl (taken, good, image))) = image
  Saved-ok w program start c w' (inr (w₁, e, inr (cut, inl bad))) = absurd cc
  Saved-ok w program start c w' (inr (w₁, e, inr (cut, inr bad))) = absurd cc

  loaded-Reloaded :
      (w w₁ : fs.World) (program : List ℕ) (start : ℕ) (saved : SymbolTable) (m m₁ : VmMemory)
      (st : SymbolTable) (stale : Bytes) (rest : List ℕ)
      → fs.open_fd w read_only ≡ some w₁
      → gives fs w₁ (image_sizes program saved.symbols) ≡ true
      → h.content w ≡ image_bytes program start saved.symbols ++ rest
      → length program < 2 ^ 32
      → start < length program
      → length saved.symbols < 2 ^ 32
      → AreShort saved.symbols
      → AreTexts saved.symbols
      → IsTable saved
      → IsTable st
      → st.symbols ≡ []
      → reserve_vm_memory_for_program host m (length program) ≡ done (m₁, success)
      → Returns
          (load_vm_program_image fs host link_size w stale m st true)
          (Reloaded fs program start saved m₁)
  unfolding load_vm_program_image
  loaded-Reloaded w w₁ program start saved m m₁ st stale rest opened given image size inside few
        short texts good table empty reserved =
      let c = saved.symbols in
      let hd = header_of program start c in
      let behind = program ++ (symbols_bytes c ++ rest) in
      let regroup : image_bytes program start c ++ rest ≡ header_bytes hd ++ behind =
        append_assoc (header_bytes hd) (program ++ symbols_bytes c) rest
        ∙ ap (λ b. header_bytes hd ++ b) (append_assoc program (symbols_bytes c) rest) in
      let w₂ = (fs.read w₁ 24).0 in
      let w₃ = (fs.read w₂ (length program)).0 in
      let (full₁, given₁) =
        both_true (read_in_full fs w₁ 24) (gives fs w₂ (length program ∷ symbol_sizes c)) given in
      let (full₂, given₂) =
        both_true (read_in_full fs w₂ (length program)) (gives fs w₃ (symbol_sizes c)) given₁ in
      let here₁ = open_file-At fs h w read_only w₁ opened in
      let here₁' = subst (λ b. At fs h w₁ [] b) (image ∙ regroup) here₁ in
      let (headed, here₂) =
        read_header-At w₁ hd behind size few (omega (arith, size, inside)) here₁' full₁ in
      let (got, here₃) =
        read_from_file-At fs h w₂ (length program) (header_bytes hd) program
          (symbols_bytes c ++ rest) refl full₂ here₂ in
      let (r, loaded, out) =
        load_symbols-Restored fs h host link_size w₃ stale (header_bytes hd ++ program) rest [] c st
          here₃ given₂ short texts good.ascending good.distinct table empty in
      (
        record {
          world = fs.close r.0;
          memory = record m₁ { bytes = write_bytes m₁.bytes 0 program };
          symbols = r.1;
          start_address = start;
          result = r.2;
        },
        ground (arith, opened, headed, reserved, got, loaded),
        (
          read_bytes-write_bytes m₁.bytes 0 program,
          λ x beyond. write_bytes-outside m₁.bytes 0 program x (inr (omega (arith, beyond))),
          refl,
          refl,
          Restored-AreBack saved r good out,
        ),
      )

  -- If saving a program and its symbols to a regular file has reported success, and if that file can
  -- be opened and each read for loading it hands back all the bytes that it asks for, then loading it
  -- into a machine with an empty symbol table and room for the program returns: the memory then starts
  -- with the program, the start address is the one saved, and either the list of symbols is the one
  -- saved and every lookup by name gives what it gave before, or the table is full or could not
  -- allocate. The program is below 2^32 bytes and contains the start; there are fewer than 2^32
  -- symbols, of which the names are texts of at most 247 bytes and the addresses have 64 bits; both
  -- tables are well formed.
  pub load_vm_program_image-save_vm_program_image :
      (w w' w₁ : fs.World) (program : List ℕ) (start : ℕ) (saved : SymbolTable) (m m₁ : VmMemory)
      (st : SymbolTable) (stale : Bytes)
      → save_vm_program_image fs w program start (some saved) ≡ (w', ok)
      → fs.open_fd w' read_only ≡ some w₁
      → gives fs w₁ (image_sizes program saved.symbols) ≡ true
      → length program < 2 ^ 32
      → start < length program
      → length saved.symbols < 2 ^ 32
      → AreShort saved.symbols
      → AreTexts saved.symbols
      → IsTable saved
      → IsTable st
      → st.symbols ≡ []
      → reserve_vm_memory_for_program host m (length program) ≡ done (m₁, success)
      → Returns
          (load_vm_program_image fs host link_size w' stale m st true)
          (Reloaded fs program start saved m₁)
  load_vm_program_image-save_vm_program_image w w' w₁ program start saved m m₁ st stale written
        opened given size inside few short texts good table empty reserved =
      let (rest, image) = Saved-ok w program start saved.symbols w' (
        subst (Saved fs h w program start saved.symbols) written
          (save_vm_program_image-Saved fs h w program start (some saved) size inside short)) in
      loaded-Reloaded w' w₁ program start saved m m₁ st stale rest opened given image size inside
        few short texts good table empty reserved
