-- ===== src/Array.antt =====
-- src/array.c: a byte array that grows by reallocation up to a limit.
-- `data` is a host address, 0 for NULL. The bytes from `data` to `end` are a list, and `capacity` is
-- `eos - data`. Pointers into the array are indices.
pub mod Grow
pub mod Edit
pub mod Fill
use unlambda.Base.{
  ℕ, zero, suc, ◌+◌, ◌-◌, ◌*◌, Bool, true, false, ◌&&◌, ◌||◌, Option, none, some, List, [], ◌++◌,
  length, take, drop, replicate, ltb, leb, ◌==◌, if◌then◌else◌, Return, success, failure, add64,
  mul64,
}
use unlambda.Base.Host.{Host}
use unlambda.Base.Run.{Run, done, assertion_failed, out_of_bounds, unfinished, ◌>>=◌, ◌>>◌, assert}

-- `statusCode`: 0 and the three Array...Error constants. The message says the same in words.
pub data ArrayStatus : Type 0 where
  ok invalid_argument sequence_too_long out_of_memory : ArrayStatus

pub record Array : Type 0 where
  pub data_start : ℕ
  pub bytes : List ℕ
  pub capacity : ℕ
  pub max_size : ℕ
  pub status : ArrayStatus

abbrev pub array_size : Array → ℕ
array_size a = length a.bytes

abbrev pub set_array_status : Array → ArrayStatus → Array
set_array_status a code = record a { status = code }

unfoldable pub next_size_increment : ℕ → ℕ → ℕ
next_size_increment current max_size =
    let next = if ltb current 16 then 16 else mul64 current 2 in
    if ltb current next && ltb next max_size then next else max_size

-- The loop of `increaseArrayStorage`.
unfoldable pub reach_capacity : ℕ → ℕ → ℕ → ℕ → Run ℕ
reach_capacity zero next desired max_size = unfinished
reach_capacity (suc fuel) next desired max_size = elim (ltb next desired) [
  | true ↦ reach_capacity fuel (next_size_increment next max_size) desired max_size
  | false ↦ done next
]

unfoldable pub increase_array_storage : Host → Array → ℕ → Run (Array × Return)
increase_array_storage host a desired =
    assert (leb desired a.max_size)
    >> (reach_capacity (suc (suc a.max_size)) (next_size_increment a.capacity a.max_size) desired
          a.max_size
        >>= λ next.
            assert (leb next a.max_size)
            >> (assert (leb desired next) >> elim (host.realloc a.data_start next) [
              | none ↦ done (set_array_status a out_of_memory, failure)
              | some p ↦ done (record a { data_start = p; capacity = next }, success)
            ]))

-- `impl_size` is `sizeof(ArrayImpl)`, and `found` what the new storage holds, one byte for each of
-- the initial size.
unfoldable pub create_array : Host → ℕ → List ℕ → ℕ → Run (Option Array)
create_array host impl_size found max_size =
    if (max_size == 0) || ltb max_size (length found)
    then done none
    else elim (host.malloc impl_size) [
      | none ↦ done none
      | some _ ↦
          let empty : Array = record {
            data_start = 0;
            bytes = [];
            capacity = 0;
            max_size = max_size;
            status = ok;
          } in
          if length found == 0 then done (some empty) else (do
            (a, code) ← increase_array_storage host empty (length found)
            elim code [ failure ↦ done none | success ↦ done (some (record a { bytes = found })) ])
    ]

-- The common part of the two operations that add bytes: `n` bytes more, from a sequence, put
-- between those before and those after `location`.
unfoldable pub put_between : Host → Array → ℕ → List ℕ → ℕ → Run (Array × Return)
put_between host a location content n =
    let size = array_size a in
    let new_size = add64 size n in
    let finish = λ (b : Array).
      assert (leb (length b.bytes + n) b.capacity)
      >> done (
        record b {
          bytes = take location b.bytes ++ (take n content ++ drop location b.bytes);
          status = ok;
        },
        success,
      ) in
    if ltb new_size size || ltb a.max_size new_size
    then done (set_array_status a sequence_too_long, failure)
    else if ltb a.capacity new_size
    then (do
      (b, code) ← increase_array_storage host a new_size
      elim code [ failure ↦ done (b, failure) | success ↦ finish b ])
    else finish a

-- `seq` is `none` where the pointer is NULL.
unfoldable pub append_to_array : Host → Array → Option (List ℕ) → ℕ → Run (Array × Return)
append_to_array host a seq n = if n == 0 then done (a, success) else elim seq [
  | none ↦ done (set_array_status a invalid_argument, failure)
  | some content ↦ put_between host a (array_size a) content n
]

unfoldable pub insert_into_array : Host → Array → ℕ → Option (List ℕ) → ℕ → Run (Array × Return)
insert_into_array host a location seq n =
    if location == array_size a
    then append_to_array host a seq n
    else if ltb (array_size a) location
    then done (set_array_status a invalid_argument, failure)
    else if n == 0
    then done (a, success)
    else elim seq [
      | none ↦ done (set_array_status a invalid_argument, failure)
      | some content ↦ put_between host a location content n
    ]

-- Where `location + size` wraps around, the source of `memmove` lies outside the array.
unfoldable pub remove_from_array : Array → ℕ → ℕ → Run (Array × Return)
remove_from_array a location n =
    let size = array_size a in
    let count = if ltb size (add64 location n) then size - location else n in
    if ltb size location
    then done (set_array_status a invalid_argument, failure)
    else if count == 0
    then done (a, success)
    else if ltb size count
    then out_of_bounds
    else assert (leb count size)
      >> done (
        record a { bytes = take location a.bytes ++ drop (location + count) a.bytes; status = ok },
        success,
      )

unfoldable pub clear_array : Array → Array
clear_array a = record a { bytes = []; status = ok }

unfoldable pub fill_array : Array → ℕ → ℕ → ℕ → Run (Array × Return)
fill_array a start end value =
    let size = array_size a in
    if ltb end start || (ltb size start || ltb size end)
    then done (set_array_status a invalid_argument, failure)
    else assert (ltb start size || (end == start))
      >> (if end == start
          then done (a, success)
          else done (
            record a {
              bytes = take start a.bytes ++ (replicate (end - start) value ++ drop end a.bytes);
              status = ok;
            },
            success,
          ))
