-- ===== src/Image/Buffer.antt =====
-- The buffer in which `loadSymbolsFromFile` of src/vm_image.c takes a symbol apart.
use unlambda.Base.{
  ℕ, zero, suc, ◌+◌, ◌^◌, ◌≤◌, ◌<◌, ◌≡◌, ◌∙◌, ap, inl, List, [], ◌∷◌, ◌++◌, length, arith,
}
use unlambda.Base.Run.{done}
use unlambda.Memory.Bytes.{
  Bytes, store_byte, write_bytes, read_bytes, read64, bytes_of, number_of, length-bytes_of,
  number_of-bytes_of, write_bytes-outside, read_bytes-Agrees, read_bytes-write_bytes,
}
use unlambda.Image.{c_string}

write_bytes-append :
    (f : Bytes) (a : ℕ) (xs ys : List ℕ)
    → write_bytes f a (xs ++ ys) ≡ write_bytes (write_bytes f a xs) (a + length xs) ys
unfolding write_bytes
write_bytes-append f a [] ys = ap (λ k. write_bytes f k ys) (omega arith)
write_bytes-append f a (x ∷ xs) ys =
    write_bytes-append (store_byte f a x) (a + 1) xs ys
    ∙ ap (λ k. write_bytes (write_bytes (store_byte f a x) (a + 1) xs) k ys) (omega arith)

-- Bytes that a C string can have.
abbrev pub IsText : List ℕ → Type 0
IsText [] = Unit
IsText (c ∷ cs) = (0 < c) × (c < 256) × IsText cs

c_string-read_bytes :
    (left : ℕ) (f : Bytes) (p : ℕ) (name : List ℕ)
    → length name < left
    → IsText name
    → read_bytes f p (length name) ≡ name
    → f (p + length name) ≡ 0
    → c_string left f p ≡ done name
unfolding c_string read_bytes
c_string-read_bytes zero f p name room text same end = absurd (omega arith)
c_string-read_bytes (suc left) f p [] room text same end =
    let here : f p ≡ 0 = ap f (omega arith) ∙ end in ground (arith, here)
c_string-read_bytes (suc left) f p (c ∷ cs) room (low, high, text) same end =
    let head : f p ≡ c = cc in
    let tail : read_bytes f (p + 1) (length cs) ≡ cs = cc in
    let end' : f (p + 1 + length cs) ≡ 0 = ap f (omega arith) ∙ end in
    let rest = c_string-read_bytes left f (p + 1) cs (omega arith) text tail end' in
    ground (arith, head, rest)

abbrev pub filled : Bytes → List ℕ → ℕ → Bytes
filled stale name address =
    store_byte (write_bytes stale 0 (bytes_of 8 address ++ name)) (length name + 8) 0

module _ (stale : Bytes) (name : List ℕ) (address : ℕ) (text : IsText name)
    (word : address < 2 ^ 64) where
  start_kept :
      (lo n : ℕ)
      → lo + n ≤ length name + 8
      → read_bytes (filled stale name address) lo n
        ≡ read_bytes (write_bytes stale 0 (bytes_of 8 address ++ name)) lo n
  start_kept lo n h = read_bytes-Agrees lo n (λ x from to. ground arith)

  pub filled-address : read64 (filled stale name address) 0 ≡ address
  unfolding read64
  filled-address =
      let eight = length-bytes_of 8 address in
      let f = write_bytes stale 0 (bytes_of 8 address) in
      let split =
        ap (λ g. read_bytes g 0 8) (write_bytes-append stale 0 (bytes_of 8 address) name) in
      let under : read_bytes (write_bytes f (0 + length (bytes_of 8 address)) name) 0 8
          ≡ read_bytes f 0 8 =
        read_bytes-Agrees 0 8 (λ x from to.
          write_bytes-outside f (0 + length (bytes_of 8 address)) name x
            (inl (omega (arith, to, eight)))) in
      let stored : read_bytes f 0 8 ≡ bytes_of 8 address =
        rw eight at (read_bytes-write_bytes stale 0 (bytes_of 8 address)) in
      ap number_of (start_kept 0 8 (omega arith) ∙ split ∙ under ∙ stored)
      ∙ number_of-bytes_of 8 address (omega (arith, word))

  pub filled-name : length name < 249 → c_string 249 (filled stale name address) 8 ≡ done name
  filled-name room =
      let f = write_bytes stale 0 (bytes_of 8 address) in
      let at : 0 + length (bytes_of 8 address) ≡ 8 = omega (arith, length-bytes_of 8 address) in
      let split =
        ap (λ g. read_bytes g 8 (length name))
          (write_bytes-append stale 0 (bytes_of 8 address) name
            ∙ ap (λ k. write_bytes f k name) at) in
      c_string-read_bytes 249 (filled stale name address) 8 name room text
        (start_kept 8 (length name) (omega arith) ∙ split ∙ read_bytes-write_bytes f 8 name)
        (ground arith)
