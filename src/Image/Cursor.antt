-- ===== src/Image/Cursor.antt =====
-- Reads and writes of src/fileio.c on a regular file, by what lies before and behind the offset.
use unlambda.Base.{
  ℕ, ◌+◌, ◌≡◌, refl, sym, ◌∙◌, ap, List, [], ◌++◌, length, drop, length-append, overwrite,
  slice-append, drop-append, drop-drop, take-append, append_assoc, success, failure, some, arith,
  true, false, ◌⊎◌, inl, inr, Option-cases, Bool-cases, ◌==◌, take-length, take,
}
use unlambda.Files.{
  read_in_full, written_in_full, Files, AreRegular, Flags, read_from_file, write_to_file,
}

module _ (fs : Files) (h : AreRegular fs) where
  -- `before` has been read or written, and `behind` follows.
  abbrev pub At : fs.World → List ℕ → List ℕ → Type 0
  At w before behind = (h.content w ≡ before ++ behind) × (h.offset w ≡ length before)

  pub open_file-At :
      (w : fs.World) (flags : Flags) (w' : fs.World)
      → fs.open_fd w flags ≡ some w'
      → At w' [] (h.content w)
  open_file-At w flags w' opened = h.opens w flags w' opened

  pub read_from_file-At :
      (w : fs.World) (n : ℕ) (before bytes behind : List ℕ)
      → n ≡ length bytes
      → read_in_full fs w n ≡ true
      → At w before (bytes ++ behind)
      → (read_from_file fs w n ≡ ((fs.read w n).0, bytes, success))
        × At (fs.read w n).0 (before ++ bytes) behind
  unfolding read_from_file
  read_from_file-At w n before bytes behind size full (here, at) =
      elim (Option-cases (fs.read w n).1) [
        | inl e ↦ absurd (ground (arith, rw (read_in_full, e) at full))
        | inr (got, e) ↦
            let sized : length got ≡ n = ground (arith, rw (read_in_full, e) at full) in
            let (sliced, same, moved) = h.reads w n got e in
            let itself : (n == n) ≡ true = ground arith in
            let all : got ≡ bytes =
              sliced ∙ rw (sized, here) (slice-append before bytes behind (h.offset w) n at size) in
            (
              rw (read_from_file, e, sized, all, itself) refl,
              (
                same ∙ here ∙ sym (append_assoc before bytes behind),
                omega (arith, moved, at, size, sized, length-append before bytes),
              ),
            )
      ]

  -- A write that is complete, and one that is not.
  abbrev pub Written : fs.World → List ℕ → List ℕ → List ℕ → Type 0
  Written w before bytes behind =
      ((written_in_full fs w bytes ≡ true)
        × (write_to_file fs w bytes ≡ ((fs.write w bytes).0, success))
        × At (fs.write w bytes).0 (before ++ bytes) (drop (length bytes) behind))
      ⊎ ((written_in_full fs w bytes ≡ false)
          × (write_to_file fs w bytes ≡ ((fs.write w bytes).0, failure)))

  pub write_to_file-At :
      (w : fs.World) (before bytes behind : List ℕ)
      → At w before behind
      → Written w before bytes behind
  unfolding write_to_file overwrite
  write_to_file-At w before bytes behind (here, at) = elim (Option-cases (fs.write w bytes).1) [
    | inl e ↦ inr (rw (written_in_full, e) refl, rw (write_to_file, e) refl)
    | inr (k, e) ↦ elim (Bool-cases (k == length bytes)) [
      | inr short ↦ inr (rw (written_in_full, e, short) refl, rw (write_to_file, e, short) refl)
      | inl full ↦
          let size : k ≡ length bytes = ground (arith, full) in
          let total = ap length here ∙ length-append before behind in
          let (stored, moved) = h.writes w bytes k (omega (arith, total, at)) e in
          let all : take k bytes ≡ bytes = take-length k bytes (omega (arith, size)) in
          let rest : drop (length before + length bytes) (before ++ behind)
              ≡ drop (length bytes) behind =
            sym (drop-drop (length before) (length bytes) (before ++ behind))
            ∙ ap (drop (length bytes)) (drop-append before behind (length before) refl) in
          inl (
            rw (written_in_full, e, full) refl,
            rw (write_to_file, e, full) refl,
            (
              stored
                  ∙ rw (all, at, here, take-append before behind (length before) refl, rest)
                      (sym (append_assoc before bytes (drop (length bytes) behind))),
              omega (arith, moved, at, size, length-append before bytes),
            ),
          )
    ]
  ]
