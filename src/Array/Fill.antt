-- ===== src/Array/Fill.antt =====
-- `fillArray` of src/array.c.
use unlambda.Base.{
  ℕ, ◌+◌, ◌-◌, ◌≡◌, refl, sym, ◌∙◌, ap, List, [], ◌∷◌, ◌++◌, append_assoc, length, length-append,
  take, drop, replicate, take-append, drop-append, success, arith,
}
use unlambda.Base.Run.{Returns}
use unlambda.Array.{Array, ok, fill_array}

-- Filling from one index to another, both within the array or at its end, sets the bytes between
-- them to the value and leaves the others, without a failed assertion.
fill_array-append :
    (a : Array) (pre mid post : List ℕ) (value : ℕ)
    → a.bytes ≡ pre ++ (mid ++ post)
    → Returns (fill_array a (length pre) (length pre + length mid) value) (λ r.
      (r.1 ≡ success)
      × (r.0.bytes ≡ pre ++ (replicate (length mid) value ++ post))
      × (r.0.max_size ≡ a.max_size))
unfolding fill_array
fill_array-append a pre [] post value shape =
    let size = ap length shape ∙ length-append pre post in
    ((a, success), ground (arith, size), (refl, shape, refl))
fill_array-append a pre (x ∷ xs) post value shape =
    let mid = x ∷ xs in
    let size : length a.bytes ≡ length pre + (length mid + length post) =
      ap length shape ∙ omega (arith, length-append pre (mid ++ post), length-append mid post) in
    let kept = ap (take (length pre)) shape ∙ take-append pre (mid ++ post) (length pre) refl in
    let rest : drop (length pre + length mid) a.bytes ≡ post =
      ap (drop (length pre + length mid)) (shape ∙ sym (append_assoc pre mid post))
      ∙ drop-append (pre ++ mid) post (length pre + length mid) (sym (length-append pre mid)) in
    let count : length pre + length mid - length pre ≡ length mid = omega arith in
    (
      (record a { bytes = pre ++ (replicate (length mid) value ++ post); status = ok }, success),
      ground (arith, size, kept, rest, count),
      (refl, refl, refl),
    )
