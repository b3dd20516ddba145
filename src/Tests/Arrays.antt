-- ===== src/Tests/Arrays.antt =====
-- Runs of the definitions for src/array.c.
use unlambda.Base.{◌≡◌, refl, some, [], ◌∷◌, success, arith}
use unlambda.Base.Run.{done, Returns}
use unlambda.Array.{
  Array, ok, put_between, insert_into_array, remove_from_array, increase_array_storage,
}
use unlambda.Array.Grow.{IsArray, Stored, increase_array_storage-Stored}
use unlambda.Array.Edit.{Inserted, insert_into_array-Inserted, remove_from_array-insert_into_array}
use unlambda.Tests.Stacks.{host}

abbrev four_bytes : Array
four_bytes = record {
  data_start = 4096;
  bytes = 1 ∷ 2 ∷ 3 ∷ 4 ∷ [];
  capacity = 8;
  max_size = 32;
  status = ok;
}

four_bytes-IsArray : IsArray four_bytes
four_bytes-IsArray = ground arith

insert_into_array-Inserted_example :
    Returns
      (insert_into_array host four_bytes 1 (some (7 ∷ 8 ∷ 9 ∷ 10 ∷ 11 ∷ [])) 5)
      (Inserted host four_bytes (1 ∷ []) (7 ∷ 8 ∷ 9 ∷ 10 ∷ 11 ∷ []) (2 ∷ 3 ∷ 4 ∷ []))
insert_into_array-Inserted_example =
    insert_into_array-Inserted host four_bytes (1 ∷ []) (7 ∷ 8 ∷ 9 ∷ 10 ∷ 11 ∷ []) (2 ∷ 3 ∷ 4 ∷ [])
      four_bytes-IsArray refl (ground arith)

increase_array_storage-Stored_example :
    Returns (increase_array_storage host four_bytes 9) (Stored host four_bytes 9)
increase_array_storage-Stored_example =
    increase_array_storage-Stored host four_bytes 9 four_bytes-IsArray (ground arith) (ground arith)

abbrev six_bytes : Array
six_bytes = record four_bytes { bytes = 1 ∷ 7 ∷ 8 ∷ 2 ∷ 3 ∷ 4 ∷ [] }

inserted : insert_into_array host four_bytes 1 (some (7 ∷ 8 ∷ [])) 2 ≡ done (six_bytes, success)
unfolding insert_into_array put_between
inserted = refl

remove_from_array-insert_into_array_example :
    Returns
      (remove_from_array six_bytes 1 2)
      (λ r. (r.1 ≡ success) × (r.0.bytes ≡ four_bytes.bytes) × (r.0.max_size ≡ 32))
remove_from_array-insert_into_array_example =
    remove_from_array-insert_into_array host four_bytes six_bytes (1 ∷ []) (7 ∷ 8 ∷ [])
      (2 ∷ 3 ∷ 4 ∷ []) four_bytes-IsArray refl (ground arith) inserted
