-- ===== src/Image/Restore.antt =====
-- `loadVmProgramImage` of src/vm_image.c on the images that `saveVmProgramImage` writes.
use unlambda.Base.{
  ℕ, zero, suc, ◌+◌, ◌*◌, ◌^◌, ◌≤◌, ◌<◌, ◌≡◌, refl, sym, ◌∙◌, ap, subst, ◌⊎◌, inl, inr, true,
  Bool-cases, none, List, [], ◌∷◌, ◌++◌, length, take, drop, length-append, append-nil,
  append_assoc, Return, success, failure, arith,
}
use unlambda.Base.Host.{Host}
use unlambda.Base.Run.{Run, done, Returns, ◌>>=◌}
use unlambda.Files.{Files, AreRegular, read_in_full, gives, both_true}
use unlambda.Memory.Bytes.{Bytes, bytes_of, number_of, length-bytes_of}
use unlambda.Symbols.{
  Symbol, SymbolTable, allocation_failed, table_full, same_name, add_symbol_to_table,
}
use unlambda.Symbols.Names.{
  find_in, find_in-append, find_symbol-find_in, same_name_eq, same_name_refl,
}
use unlambda.Symbols.Addresses.{Ascending, AllAbove, AllBelow, at_address}
use unlambda.Symbols.Table.{IsTable, Distinct}
use unlambda.Symbols.Add.{add_symbol_to_table-Added}
use unlambda.Symbols.Added.{Added}
use unlambda.Image.{ImageStatus, ok, format_error, symbol_bytes, load_symbols_from_file}
use unlambda.Image.Buffer.{IsText, filled, filled-address, filled-name}
use unlambda.Image.Cursor.{At, read_from_file-At}
use unlambda.Image.Save.{AreShort, symbols_bytes}

-- The last symbol by address comes to stand at the end of the list.
insert_last :
    (c : List Symbol) (i : ℕ) (s : Symbol)
    → AllBelow s.address c
    → Ascending (take i c ++ s ∷ drop i c)
    → take i c ++ s ∷ drop i c ≡ c ++ s ∷ []
insert_last [] zero s below up = refl
insert_last [] (suc i) s below up = refl
insert_last (t ∷ c) zero s (here, below) ((over, above), up) = absurd (omega arith)
insert_last (t ∷ c) (suc i) s (here, below) (above, up) =
    ap (λ r. t ∷ r) (insert_last c i s below up)

AllAbove-append :
    (a : ℕ) (c : List Symbol) (s : Symbol) (d : List Symbol)
    → AllAbove a (c ++ s ∷ d)
    → a < s.address
AllAbove-append a [] s d (here, above) = here
AllAbove-append a (t ∷ c) s d (here, above) = AllAbove-append a c s d above

Ascending-append :
    (c : List Symbol) (s : Symbol) (d : List Symbol) → Ascending (c ++ s ∷ d) → AllBelow s.address c
Ascending-append [] s d up = tt
Ascending-append (t ∷ c) s d (above, up) =
    (AllAbove-append t.address c s d above, Ascending-append c s d up)

at_address-none : (a : ℕ) (c : List Symbol) → AllBelow a c → at_address a c ≡ none
at_address-none a [] below = refl
at_address-none a (t ∷ c) (here, below) = ground (arith, at_address-none a c below)

Distinct-append :
    (c : List Symbol) (s : Symbol) (d : List Symbol)
    → Distinct (c ++ s ∷ d)
    → find_in s.name c ≡ none
Distinct-append [] s d alone = refl
Distinct-append (t ∷ c) s d (alone, rest) = elim (Bool-cases (same_name s.name t.name)) [
  | inr e ↦ ground (arith, e, Distinct-append c s d rest)
  | inl e ↦
      let hit : same_name t.name s.name ≡ true =
        rw (same_name_eq s.name t.name e) (same_name_refl t.name) in
      absurd (ground (arith, hit, alone, find_in-append t.name c (s ∷ d)))
]

-- Symbols that an image can hold.
abbrev pub AreTexts : List Symbol → Type 0
AreTexts [] = Unit
AreTexts (s ∷ c) = IsText s.name × (s.address < 2 ^ 64) × AreTexts c

-- What loading symbols leaves: all of them, or a table that could not take one.
abbrev pub Restored : {W : Type 0} → List Symbol → W × SymbolTable × ImageStatus → Type 0
Restored all (w, st, ok) = IsTable st × (st.symbols ≡ all)
Restored all (w, st, format_error) =
    IsTable st × ((st.status ≡ table_full) ⊎ (st.status ≡ allocation_failed))
Restored all (w, st, _) = ⊥

-- The reads of the symbols of an image: the byte of the length, and that many bytes.
abbrev pub symbol_sizes : List Symbol → List ℕ
symbol_sizes [] = []
symbol_sizes (s ∷ c) = 1 ∷ (length s.name + 8) ∷ symbol_sizes c

module _ (fs : Files) (h : AreRegular fs) (host : Host) (link_size : ℕ) where
  abbrev loads :
      fs.World → Bytes → List Symbol → SymbolTable → Run (fs.World × SymbolTable × ImageStatus)
  loads w buffer c st = load_symbols_from_file fs host link_size w buffer (length c) st

  load_one :
      (w : fs.World) (buffer : Bytes) (before behind : List ℕ) (s : Symbol) (c : List Symbol)
      (st : SymbolTable)
      → length s.name ≤ 247
      → IsText s.name
      → s.address < 2 ^ 64
      → At fs h w before (symbols_bytes (s ∷ c) ++ behind)
      → gives fs w (symbol_sizes (s ∷ c)) ≡ true
      → (w' : fs.World) × (gives fs w' (symbol_sizes c) ≡ true)
        × At fs h w' (before ++ symbol_bytes s) (symbols_bytes c ++ behind)
        × (loads w buffer (s ∷ c) st ≡ (
            add_symbol_to_table host link_size st s.name s.address >>= λ r. elim r.1 [
              | failure ↦ done (w', r.0, format_error)
              | success ↦ loads w' (filled buffer s.name s.address) c r.0
            ]))
  unfolding load_symbols_from_file number_of
  load_one w buffer before behind s c st short text word here given =
      let n = length s.name + 8 in
      let body = bytes_of 8 s.address ++ s.name in
      let size : n ≡ length body =
        omega (arith, length-append (bytes_of 8 s.address) s.name, length-bytes_of 8 s.address) in
      let regroup = append_assoc body (symbols_bytes c) behind in
      let here₀ = subst (λ b. At fs h w before (n ∷ b)) regroup here in
      let w₁ = (fs.read w 1).0 in
      let w₂ = (fs.read w₁ n).0 in
      let (full₁, given₁) =
        both_true (read_in_full fs w 1) (gives fs w₁ (n ∷ symbol_sizes c)) given in
      let (full₂, given₂) =
        both_true (read_in_full fs w₁ n) (gives fs w₂ (symbol_sizes c)) given₁ in
      let (first, here₁) =
        read_from_file-At fs h w 1 before (n ∷ []) (body ++ (symbols_bytes c ++ behind))
          (omega arith) full₁ here₀ in
      let (second, here₂) =
        read_from_file-At fs h w₁ n (before ++ n ∷ []) body (symbols_bytes c ++ behind) size full₂
          here₁ in
      let one : n + 256 * 0 ≡ n = omega arith in
      (
        w₂,
        given₂,
        subst (λ b. At fs h w₂ b (symbols_bytes c ++ behind)) (append_assoc before (n ∷ []) body)
            here₂,
        ground (
          arith,
          first,
          one,
          second,
          filled-name buffer s.name s.address text word (omega arith),
          filled-address buffer s.name s.address text word,
        ),
      )

  pub load_symbols-Restored :
      (w : fs.World) (buffer : Bytes) (before behind : List ℕ) (pre c : List Symbol)
      (st : SymbolTable)
      → At fs h w before (symbols_bytes c ++ behind)
      → gives fs w (symbol_sizes c) ≡ true
      → AreShort c
      → AreTexts c
      → Ascending (pre ++ c)
      → Distinct (pre ++ c)
      → IsTable st
      → st.symbols ≡ pre
      → Returns (loads w buffer c st) (Restored (pre ++ c))
  unfolding load_symbols_from_file
  load_symbols-Restored w buffer before behind pre [] st here given short texts up alone table
        same =
      ((w, st, ok), refl, (table, same ∙ sym (append-nil pre)))
  load_symbols-Restored w buffer before behind pre (s ∷ c) st here given (fits, short)
        (text, word, texts) up alone table same =
      let (w', given', here', run) =
        load_one w buffer before behind s c st fits text word here given in
      let (r, added, out) = add_symbol_to_table-Added host link_size st s.name s.address table in
      let (r', rest, out') =
        go w'
          (λ pre' st' up' alone' table' same'.
            load_symbols-Restored w' (filled buffer s.name s.address) (before ++ symbol_bytes s)
              behind pre' c st' here' given' short texts up' alone' table' same')
          r out in
      (r', run ∙ rw added rest, out')
    where
      go :
          (w' : fs.World)
          → ((pre' : List Symbol) (st' : SymbolTable)
              → Ascending (pre' ++ c)
              → Distinct (pre' ++ c)
              → IsTable st'
              → st'.symbols ≡ pre'
              → Returns (loads w' (filled buffer s.name s.address) c st') (Restored (pre' ++ c)))
          → (r : SymbolTable × Return) → Added st s.name s.address r
          → Returns
              (elim r.1 [
                | failure ↦ done (w', r.0, format_error)
                | success ↦ loads w' (filled buffer s.name s.address) c r.0
              ])
              (Restored (pre ++ s ∷ c))
      go w' next (st', success) (table', room, (i, e), finds) =
          let grouped = append_assoc pre (s ∷ []) c in
          let kept = e ∙ ap (λ l. take i l ++ s ∷ drop i l) same in
          let last =
            insert_last pre i s (Ascending-append pre s c up)
              (subst Ascending kept table'.ascending) in
          subst (λ all. Returns (loads w' (filled buffer s.name s.address) c st') (Restored all))
            grouped
            (next (pre ++ s ∷ []) st' (subst Ascending (sym grouped) up)
              (subst Distinct (sym grouped) alone) table' (kept ∙ last))
      go w' next (st', failure) (table', kept, finds, inl (status, (t, found))) =
          let absent = ap (find_in s.name) same ∙ Distinct-append pre s c alone in
          let missing_name = find_symbol-find_in st s.name ∙ table.agrees s.name ∙ absent in
          absurd cc
      go w' next (st', failure) (table', kept, finds, inr (inl (status, (t, found)))) =
          let absent =
            ap (at_address s.address) same
            ∙ at_address-none s.address pre (Ascending-append pre s c up) in
          absurd cc
      go w' next (st', failure) (table', kept, finds, inr (inr (inl (status, full)))) =
          ((w', st', format_error), refl, (table', inl status))
      go w' next (st', failure) (table', kept, finds, inr (inr (inr status))) =
          ((w', st', format_error), refl, (table', inr status))
