-- ===== src/Image/Save.antt =====
-- `saveVmProgramImage` of src/vm_image.c: the bytes that it leaves in the file.
use unlambda.Base.{
  ℕ, ◌^◌, ◌≤◌, ◌<◌, ◌≡◌, refl, sym, ◌∙◌, ap, subst, Option, List, [], ◌∷◌, ◌++◌, length, drop,
  append-nil, append_assoc, ◌&&◌, arith, true, false, none, some, ◌⊎◌, inl, inr, Option-cases,
}
use unlambda.Files.{Files, AreRegular, write_or_create, takes}
use unlambda.Symbols.{Symbol, SymbolTable}
use unlambda.Image.{
  Header, ImageStatus, ok, io_error, illegal_argument, header_bytes, write_header, symbol_bytes,
  listed_symbols, max_symbol_name_len, save_symbols, save_vm_program_image,
}
use unlambda.Image.Cursor.{At, open_file-At, write_to_file-At}

abbrev pub symbols_bytes : List Symbol → List ℕ
symbols_bytes [] = []
symbols_bytes (s ∷ c) = symbol_bytes s ++ symbols_bytes c

abbrev pub AreShort : List Symbol → Type 0
AreShort [] = Unit
AreShort (s ∷ c) = (length s.name ≤ max_symbol_name_len) × AreShort c

abbrev pub header_of : List ℕ → ℕ → List Symbol → Header
header_of program start c = record {
  program_size = length program;
  symbols_size = length c;
  start = start;
}

-- The layout of an image, as the comment at the top of the file gives it.
abbrev pub image_bytes : List ℕ → ℕ → List Symbol → List ℕ
image_bytes program start c =
    header_bytes (header_of program start c) ++ (program ++ symbols_bytes c)

-- The writes of an image, in order.
abbrev pub symbol_chunks : List Symbol → List (List ℕ)
symbol_chunks [] = []
symbol_chunks (s ∷ c) = symbol_bytes s ∷ symbol_chunks c

abbrev pub image_chunks : List ℕ → ℕ → List Symbol → List (List ℕ)
image_chunks program start c = header_bytes (header_of program start c) ∷ program ∷ symbol_chunks c

module _ (fs : Files) (h : AreRegular fs) where
  -- What saving the symbols leaves: they follow what was before, or a write was not complete.
  abbrev SavedSymbols : fs.World → List ℕ → List Symbol → fs.World × ImageStatus → Type 0
  SavedSymbols w before c (w', result) =
      ((takes fs w (symbol_chunks c) ≡ true)
        × (result ≡ ok)
        × ((rest : List ℕ) × At fs h w' (before ++ symbols_bytes c) rest))
      ⊎ ((takes fs w (symbol_chunks c) ≡ false) × (result ≡ io_error))

  save_symbols-Saved :
      (w : fs.World) (before behind : List ℕ) (c : List Symbol)
      → AreShort c
      → At fs h w before behind
      → (r : fs.World × ImageStatus) × (save_symbols fs w c ≡ r) × SavedSymbols w before c r
  unfolding save_symbols
  save_symbols-Saved w before behind [] short here = (
    (w, ok),
    refl,
    inl (
      refl,
      refl,
      (
        behind,
        (
          here.0 ∙ ap (λ b. b ++ behind) (sym (append-nil before)),
          here.1 ∙ ap length (sym (append-nil before)),
        ),
      ),
    ),
  )
  save_symbols-Saved w before behind (s ∷ c) (fits, short) here =
      elim (write_to_file-At fs h w before (symbol_bytes s) behind here) [
        | inr (cut, run) ↦ (
          ((fs.write w (symbol_bytes s)).0, io_error),
          ground (arith, run, fits),
          inr (ap (λ b. b && takes fs (fs.write w (symbol_bytes s)).0 (symbol_chunks c)) cut, refl),
        )
        | inl (full, run, here₁) ↦
            let (r, saved, out) =
              save_symbols-Saved (fs.write w (symbol_bytes s)).0 (before ++ symbol_bytes s)
                (drop (length (symbol_bytes s)) behind) c short here₁ in
            let front =
              ap (λ b. b && takes fs (fs.write w (symbol_bytes s)).0 (symbol_chunks c)) full in
            (
              r,
              ground (arith, run, saved, fits),
              elim out [
                | inl (taken, good, (rest, at)) ↦ inl (
                  front ∙ taken,
                  good,
                  (
                    rest,
                    subst (λ b. At fs h r.0 b rest)
                        (append_assoc before (symbol_bytes s) (symbols_bytes c)) at,
                  ),
                )
                | inr (refused, bad) ↦ inr (front ∙ refused, bad)
              ],
            )
      ]

  -- What saving leaves, by the answers of the operating system.
  abbrev pub Saved : fs.World → List ℕ → ℕ → List Symbol → fs.World × ImageStatus → Type 0
  Saved w program start c (w', result) =
      ((fs.open_fd w write_or_create ≡ none) × (result ≡ illegal_argument))
      ⊎ ((w₁ : fs.World) × (fs.open_fd w write_or_create ≡ some w₁)
          × (((takes fs w₁ (image_chunks program start c) ≡ true)
                × (result ≡ ok)
                × ((rest : List ℕ) × (h.content w' ≡ image_bytes program start c ++ rest)))
              ⊎ ((takes fs w₁ (image_chunks program start c) ≡ false)
                  × ((result ≡ io_error) ⊎ (result ≡ illegal_argument)))))

  -- The writes after the file has been opened, and their results.
  after_opening :
      (w w₁ : fs.World) (program : List ℕ) (start : ℕ) (st : Option SymbolTable)
      → length program < 2 ^ 32
      → start < length program
      → AreShort (listed_symbols st)
      → fs.open_fd w write_or_create ≡ some w₁
      → (r : fs.World × ImageStatus) × (save_vm_program_image fs w program start st ≡ r)
        × Saved w program start (listed_symbols st) r
  unfolding save_vm_program_image write_header
  after_opening w w₁ program start st size inside short e =
      let c = listed_symbols st in
      let head = header_bytes (header_of program start c) in
      let w₂ = (fs.write w₁ head).0 in
      let w₃ = (fs.write w₂ program).0 in
      let others = symbol_chunks c in
      let opened = open_file-At fs h w write_or_create w₁ e in
      elim (write_to_file-At fs h w₁ [] head (h.content w) opened) [
        | inr (cut, run) ↦ (
          (fs.close w₂, io_error),
          ground (arith, e, run, size, inside),
          inr (w₁, e, inr (ap (λ b. b && takes fs w₂ (program ∷ others)) cut, inl refl)),
        )
        | inl (full, run, here) ↦
            let front = ap (λ b. b && takes fs w₂ (program ∷ others)) full in
            elim (write_to_file-At fs h w₂ head program (drop (length head) (h.content w)) here) [
              | inr (cut, run₂) ↦ (
                (fs.close w₃, illegal_argument),
                ground (arith, e, run, run₂, size, inside),
                inr (w₁, e, inr (front ∙ ap (λ b. b && takes fs w₃ others) cut, inr refl)),
              )
              | inl (full₂, run₂, here₂) ↦
                  let next = front ∙ ap (λ b. b && takes fs w₃ others) full₂ in
                  let ((w₄, result), saved, out) =
                    save_symbols-Saved w₃ (head ++ program)
                      (drop (length program) (drop (length head) (h.content w))) c short here₂ in
                  (
                    (fs.close w₄, result),
                    ground (arith, e, run, run₂, saved, size, inside),
                    inr (
                      w₁,
                      e,
                      elim out [
                        | inl (taken, good, (rest, at)) ↦ inl (
                          next ∙ taken,
                          good,
                          (
                            rest,
                            h.closes w₄
                                ∙ at.0
                                ∙ ap (λ b. b ++ rest) (append_assoc head program (symbols_bytes c)),
                          ),
                        )
                        | inr (refused, bad) ↦ inr (next ∙ refused, inl bad)
                      ],
                    ),
                  )
            ]
      ]

  -- Saving a program with its symbols to a regular file succeeds if the file can be opened and every
  -- write takes all its bytes, and then the image stands over the start of the file: the header, the
  -- program, and each symbol with its length, address and name. If the file cannot be opened, or one
  -- of the writes fails or takes fewer bytes, an error is returned. The program is below 2^32 bytes and
  -- contains the start, and names have at most 247 bytes.
  pub save_vm_program_image-Saved :
      (w : fs.World) (program : List ℕ) (start : ℕ) (st : Option SymbolTable)
      → length program < 2 ^ 32
      → start < length program
      → AreShort (listed_symbols st)
      → Saved w program start (listed_symbols st) (save_vm_program_image fs w program start st)
  unfolding save_vm_program_image
  save_vm_program_image-Saved w program start st size inside short =
      elim (Option-cases (fs.open_fd w write_or_create)) [
        | inl e ↦
            let run : save_vm_program_image fs w program start st ≡ (w, illegal_argument) =
              ground (arith, e, size, inside) in
            inl (e, ap (λ (r : fs.World × ImageStatus). r.1) run)
        | inr (w₁, e) ↦
            let (r, run, out) = after_opening w w₁ program start st size inside short e in
            subst (Saved w program start (listed_symbols st)) (sym run) out
      ]
