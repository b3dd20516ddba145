-- ===== src/Array/Edit.antt =====
-- `insertIntoArray`, `appendToArray` and `removeFromArray` of src/array.c.
use unlambda.Base.{
  ℕ, ◌+◌, ◌-◌, ◌^◌, ◌≤◌, ◌<◌, ◌≡◌, refl, sym, ◌∙◌, ap, ◌⊎◌, inl, inr, none, some, Bool-cases, List,
  [], ◌∷◌, ◌++◌, append_assoc, append-nil, length, length-append, take, drop, take-append,
  drop-append, take-length, ltb, ◌==◌, true, false, Return, success, failure, arith,
}
use unlambda.Base.Host.{Host}
use unlambda.Base.Run.{done, Returns}
use unlambda.Array.{
  Array, ok, out_of_memory, sequence_too_long, increase_array_storage, put_between, append_to_array,
  insert_into_array, remove_from_array,
}
use unlambda.Array.Grow.{IsArray, Stored, increase_array_storage-Stored}

-- What the insertion of `xs` between `pre` and `post` leaves, by its return code.
abbrev pub Inserted : Host → Array → List ℕ → List ℕ → List ℕ → Array × Return → Type 0
Inserted host a pre xs post (b, success) =
    IsArray b × (b.bytes ≡ pre ++ (xs ++ post)) × (b.max_size ≡ a.max_size)
Inserted host a pre xs post (b, failure) =
    ((b ≡ record a { status = sequence_too_long }) × (a.max_size < length a.bytes + length xs))
    ⊎ ((b ≡ record a { status = out_of_memory })
        × ((m : ℕ) × (length a.bytes + length xs ≤ m)
            × (m ≤ a.max_size)
            × (host.realloc a.data_start m ≡ none)))

module _ (host : Host) (a : Array) (pre xs post : List ℕ) (v : IsArray a)
    (shape : a.bytes ≡ pre ++ post) where
  placed :
      (b : Array)
      → b.bytes ≡ a.bytes
      → take (length pre) b.bytes ++ (take (length xs) xs ++ drop (length pre) b.bytes)
        ≡ pre ++ (xs ++ post)
  placed b same =
      let before = ap (take (length pre)) (same ∙ shape) ∙ take-append pre post (length pre) refl in
      let after = ap (drop (length pre)) (same ∙ shape) ∙ drop-append pre post (length pre) refl in
      let all = take-length (length xs) xs (omega arith) in
      ap (λ t. t ++ (take (length xs) xs ++ drop (length pre) b.bytes)) before
      ∙ ap (λ t. pre ++ (t ++ drop (length pre) b.bytes)) all
      ∙ ap (λ t. pre ++ (xs ++ t)) after

  valid_with :
      (b : Array)
      → IsArray b
      → b.bytes ≡ a.bytes
      → length a.bytes + length xs ≤ b.capacity
      → IsArray (record b { bytes = pre ++ (xs ++ post); status = ok })
  valid_with b w same room = ground (
    arith,
    ap length shape,
    length-append pre post,
    length-append pre (xs ++ post),
    length-append xs post,
  )

  after_growth :
      ltb a.max_size (length a.bytes + length xs) ≡ false
      → ltb a.capacity (length a.bytes + length xs) ≡ true
      → Returns
          (increase_array_storage host a (length a.bytes + length xs))
          (Stored host a (length a.bytes + length xs))
      → Returns (put_between host a (length pre) xs (length xs)) (Inserted host a pre xs post)
  unfolding put_between
  after_growth fits tight ((b, failure), run, (e, refused)) =
      ((b, failure), ground (arith, run, v), inr (e, refused))
  after_growth fits tight ((b, success), run, (w, same, limit, status, room)) = (
    (record b { bytes = pre ++ (xs ++ post); status = ok }, success),
    ground (arith, run, v, placed b same, same, room),
    (valid_with b w same room, refl, limit),
  )

  put_between-Inserted :
      length xs < 2 ^ 64
      → Returns (put_between host a (length pre) xs (length xs)) (Inserted host a pre xs post)
  unfolding put_between
  put_between-Inserted word = elim (Bool-cases (ltb a.max_size (length a.bytes + length xs))) [
    | inl over ↦ (
      (record a { status = sequence_too_long }, failure),
      ground (arith, v),
      inl (refl, ground arith),
    )
    | inr fits ↦ elim (Bool-cases (ltb a.capacity (length a.bytes + length xs))) [
      | inl tight ↦ after_growth fits tight (
          increase_array_storage-Stored host a (length a.bytes + length xs) v (omega arith)
            (ground arith))
      | inr loose ↦ (
        (record a { bytes = pre ++ (xs ++ post); status = ok }, success),
        ground (arith, v, placed a refl),
        (valid_with a v refl (ground arith), refl, refl),
      )
    ]
  ]

-- Insertion of `xs` into a valid array at an index within it or at its end always returns, without a
-- failed assertion: the bytes stand between those before and those from the index on, or the array
-- is as before but for the status, which says whether the limit or the allocator stood in the way.
pub insert_into_array-Inserted :
    (host : Host) (a : Array) (pre xs post : List ℕ)
    → IsArray a
    → a.bytes ≡ pre ++ post
    → length xs < 2 ^ 64
    → Returns
        (insert_into_array host a (length pre) (some xs) (length xs))
        (Inserted host a pre xs post)
unfolding insert_into_array append_to_array
insert_into_array-Inserted host a pre [] post v shape word =
    ((a, success), ground (arith, ap length shape, length-append pre post), (v, shape, refl))
insert_into_array-Inserted host a pre (x ∷ xs) post v shape word =
    let (r, run, out) = put_between-Inserted host a pre (x ∷ xs) post v shape word in
    let size = ap length shape ∙ length-append pre post in
    elim (Bool-cases (length pre == length a.bytes)) [
      | inl e ↦
          let same : length a.bytes ≡ length pre = ground arith in
          (r, ground (arith, size, same, run), out)
      | inr e ↦ (r, ground (arith, size, run), out)
    ]

-- Appending is insertion at the end.
pub append_to_array-Inserted :
    (host : Host) (a : Array) (xs : List ℕ)
    → IsArray a
    → length xs < 2 ^ 64
    → Returns (append_to_array host a (some xs) (length xs)) (Inserted host a a.bytes xs [])
unfolding insert_into_array
append_to_array-Inserted host a xs v word =
    let at_end : (length a.bytes == length a.bytes) ≡ true = ground arith in
    let (r, run, out) =
      insert_into_array-Inserted host a a.bytes xs [] v (sym (append-nil a.bytes)) word in
    (r, rw at_end at run, out)

-- Removal of a run of bytes that lies within the array takes exactly these out, without a failed
-- assertion; a run that reaches beyond the end, if its own end is a machine word, is cut at the end.
pub remove_from_array-append :
    (a : Array) (pre mid post : List ℕ) (n : ℕ)
    → a.bytes ≡ pre ++ (mid ++ post)
    → length pre + n < 2 ^ 64
    → (length mid ≡ n) ⊎ ((post ≡ []) × (length mid < n))
    → Returns (remove_from_array a (length pre) n) (λ r.
      (r.1 ≡ success)
      × (r.0.bytes ≡ pre ++ post)
      × (r.0.max_size ≡ a.max_size)
      × (r.0.capacity ≡ a.capacity))
unfolding remove_from_array
remove_from_array-append a pre [] post n shape word run = (
  (a, success),
  ground (arith, ap length shape, length-append pre post),
  (refl, shape, refl, refl),
)
remove_from_array-append a pre (x ∷ xs) post n shape word run =
    let mid = x ∷ xs in
    let size : length a.bytes ≡ length pre + (length mid + length post) =
      ap length shape ∙ omega (arith, length-append pre (mid ++ post), length-append mid post) in
    let kept = ap (take (length pre)) shape ∙ take-append pre (mid ++ post) (length pre) refl in
    let gone : drop (length pre + length mid) a.bytes ≡ post =
      ap (drop (length pre + length mid)) (shape ∙ sym (append_assoc pre mid post))
      ∙ drop-append (pre ++ mid) post (length pre + length mid) (sym (length-append pre mid)) in
    elim run [
      | inl exact ↦ (
        (record a { bytes = pre ++ post; status = ok }, success),
        ground (arith, size, kept, gone, exact),
        (refl, refl, refl, refl),
      )
      | inr (none_after, beyond) ↦
          let cut : length a.bytes - length pre ≡ length mid =
            omega (arith, size, ap length none_after) in
          (
            (record a { bytes = pre ++ post; status = ok }, success),
            ground (arith, size, kept, gone, cut, ap length none_after),
            (refl, refl, refl, refl),
          )
    ]

-- After an insertion that succeeded, the removal of as many bytes at the same index gives back the
-- bytes from before.
pub remove_from_array-insert_into_array :
    (host : Host) (a b : Array) (pre xs post : List ℕ)
    → IsArray a
    → a.bytes ≡ pre ++ post
    → length xs < 2 ^ 64
    → insert_into_array host a (length pre) (some xs) (length xs) ≡ done (b, success)
    → Returns
        (remove_from_array b (length pre) (length xs))
        (λ r. (r.1 ≡ success) × (r.0.bytes ≡ a.bytes) × (r.0.max_size ≡ a.max_size))
remove_from_array-insert_into_array host a b pre xs post v shape word made =
    go (insert_into_array-Inserted host a pre xs post v shape word)
  where
    go :
        Returns
          (insert_into_array host a (length pre) (some xs) (length xs))
          (Inserted host a pre xs post)
        → Returns
            (remove_from_array b (length pre) (length xs))
            (λ r. (r.1 ≡ success) × (r.0.bytes ≡ a.bytes) × (r.0.max_size ≡ a.max_size))
    go ((c, failure), run, out) = absurd cc
    go ((c, success), run, (w, bytes, limit)) =
        let same : c ≡ b = cc in
        let size =
          ap length bytes
          ∙ length-append pre (xs ++ post)
          ∙ ap (λ k. length pre + k) (length-append xs post) in
        let (r, removed, (code, left, limit', _)) =
          remove_from_array-append c pre xs post (length xs) bytes
            (omega (arith, size, w.stored, w.limited, w.word)) (inl refl) in
        (
          r,
          ap (λ d. remove_from_array d (length pre) (length xs)) (sym same) ∙ removed,
          (code, left ∙ sym shape, limit' ∙ limit),
        )
