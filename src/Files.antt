-- ===== src/Files.antt =====
-- src/fileio.c, over the calls of the operating system. `open`, `read`, `write` and `close` are not
-- code of this repository: they are parameters (`open_fd` is `open`) that change the state of the
-- world. One file is open at a time, so that its name and its descriptor are left out.
use unlambda.Base.{
  ℕ, ◌+◌, ◌≤◌, ◌≡◌, refl, Option, none, some, List, [], ◌∷◌, length, take, slice, Bool, true, false,
  ◌&&◌, overwrite, ◌==◌, if◌then◌else◌, Return, success, failure,
}

-- O_RDONLY, and O_WRONLY | O_CREAT
pub data Flags : Type 0 where
  read_only write_or_create : Flags

-- `read` and `write` return nothing for -1; a read hands back the bytes it stored in the buffer.
pub record Files : Type 1 where
  pub World : Type 0
  pub open_fd : World → Flags → Option World
  pub read : World → ℕ → World × Option (List ℕ)
  pub write : World → List ℕ → World × Option ℕ
  pub close : World → World

-- A regular file, of which the manual says: it is opened at its start, and not cut (there is no
-- O_TRUNC); a read or a write that does not fail moves the offset by the bytes that it transferred.
-- These may be fewer than were asked for: a signal, a full disk, and a limit of 0x7ffff000 bytes for
-- one call are documented.
pub record AreRegular (fs : Files) : Type 1 where
  pub content : fs.World → List ℕ
  pub offset : fs.World → ℕ
  pub opens :
      (w : fs.World) (flags : Flags) (w' : fs.World)
      → fs.open_fd w flags ≡ some w'
      → (content w' ≡ content w) × (offset w' ≡ 0)
  pub reads :
      (w : fs.World) (n : ℕ) (bytes : List ℕ)
      → (fs.read w n).1 ≡ some bytes
      → (bytes ≡ slice (offset w) (length bytes) (content w))
        × (content (fs.read w n).0 ≡ content w)
        × (offset (fs.read w n).0 ≡ offset w + length bytes)
  pub writes :
      (w : fs.World) (bytes : List ℕ) (k : ℕ)
      → offset w ≤ length (content w)
      → (fs.write w bytes).1 ≡ some k
      → (content (fs.write w bytes).0 ≡ overwrite (offset w) (take k bytes) (content w))
        × (offset (fs.write w bytes).0 ≡ offset w + k)
  pub closes : (w : fs.World) → content (fs.close w) ≡ content w

-- The calls that transfer all that was asked for, and runs of such calls.
abbrev pub read_in_full : (fs : Files) → fs.World → ℕ → Bool
read_in_full fs w n = elim (fs.read w n).1 [ none ↦ false | some bytes ↦ length bytes == n ]

abbrev pub written_in_full : (fs : Files) → fs.World → List ℕ → Bool
written_in_full fs w bytes = elim (fs.write w bytes).1 [ none ↦ false | some n ↦ n == length bytes ]

abbrev pub gives : (fs : Files) → fs.World → List ℕ → Bool
gives fs w [] = true
gives fs w (n ∷ ns) = read_in_full fs w n && gives fs (fs.read w n).0 ns

abbrev pub takes : (fs : Files) → fs.World → List (List ℕ) → Bool
takes fs w [] = true
takes fs w (bytes ∷ rest) = written_in_full fs w bytes && takes fs (fs.write w bytes).0 rest

pub both_true : (a b : Bool) → (a && b) ≡ true → (a ≡ true) × (b ≡ true)
both_true true b e = (refl, e)
both_true false b e = cc

abbrev pub open_file : (fs : Files) → fs.World → Flags → Option fs.World
open_file fs w flags = fs.open_fd w flags

-- The bytes stored in the buffer stand second, also where the read is too short.
unfoldable pub read_from_file : (fs : Files) → fs.World → ℕ → fs.World × List ℕ × Return
read_from_file fs w n =
    let (w', read) = fs.read w n in
    elim read [
      | none ↦ (w', [], failure)
      | some bytes ↦ (w', bytes, if length bytes == n then success else failure)
    ]

unfoldable pub write_to_file : (fs : Files) → fs.World → List ℕ → fs.World × Return
write_to_file fs w bytes =
    let (w', written) = fs.write w bytes in
    elim written [
      | none ↦ (w', failure)
      | some n ↦ (w', if n == length bytes then success else failure)
    ]
