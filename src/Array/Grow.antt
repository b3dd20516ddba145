-- ===== src/Array/Grow.antt =====
-- `increaseArrayStorage` of src/array.c.
use unlambda.Base.{
  ℕ, zero, suc, ◌-◌, ◌^◌, ◌≤◌, ◌<◌, ◌≡◌, refl, ◌⊎◌, inl, inr, none, length, ltb, Bool-cases,
  Option-cases, Return, success, failure, arith,
}
use unlambda.Base.Host.{Host}
use unlambda.Base.Run.{Returns}
use unlambda.Array.{
  Array, out_of_memory, next_size_increment, reach_capacity, increase_array_storage,
}

-- The bytes fit the storage, and the storage fits the limit, which is a machine word.
pub record IsArray (a : Array) : Type 0 where
  pub stored : length a.bytes ≤ a.capacity
  pub limited : a.capacity ≤ a.max_size
  pub word : a.max_size < 2 ^ 64

next_grows :
    (current max_size : ℕ)
    → current ≤ max_size
    → max_size < 2 ^ 64
    → (next_size_increment current max_size ≤ max_size)
      × ((next_size_increment current max_size ≡ max_size)
          ⊎ (current < next_size_increment current max_size))
unfolding next_size_increment
next_grows current max_size h w = ground arith

reach_capacity-total :
    (fuel next desired max_size : ℕ)
    → next ≤ max_size
    → desired ≤ max_size
    → max_size < 2 ^ 64
    → max_size - next < fuel
    → Returns (reach_capacity fuel next desired max_size) (λ r. (desired ≤ r) × (r ≤ max_size))
unfolding reach_capacity
reach_capacity-total zero next desired max_size h d w f = absurd (omega arith)
reach_capacity-total (suc fuel) next desired max_size h d w f =
    let more = next_size_increment next max_size in
    let grown = next_grows next max_size h w in
    elim (Bool-cases (ltb next desired)) [
      | inr reached ↦ (next, rw (reached, reach_capacity) refl, (ground arith, h))
      | inl short ↦
          let (r, run, (low, high)) =
            reach_capacity-total fuel more desired max_size grown.0 d w (ground arith) in
          (r, rw (short, reach_capacity) run, (low, high))
    ]

-- What a growth to `desired` bytes leaves, by its return code.
abbrev pub Stored : Host → Array → ℕ → Array × Return → Type 0
Stored host a desired (b, success) =
    IsArray b
    × (b.bytes ≡ a.bytes)
    × (b.max_size ≡ a.max_size)
    × (b.status ≡ a.status)
    × (desired ≤ b.capacity)
Stored host a desired (b, failure) =
    (b ≡ record a { status = out_of_memory })
    × ((m : ℕ) × (desired ≤ m) × (m ≤ a.max_size) × (host.realloc a.data_start m ≡ none))

-- Growth of the storage to a size between the bytes held and the limit always returns, without a
-- failed assertion: there is room for that size and the bytes are kept, or the allocator refuses a
-- size within the limit and only the status changes.
pub increase_array_storage-Stored :
    (host : Host) (a : Array) (desired : ℕ)
    → IsArray a
    → length a.bytes ≤ desired
    → desired ≤ a.max_size
    → Returns (increase_array_storage host a desired) (Stored host a desired)
unfolding increase_array_storage
increase_array_storage-Stored host a desired v kept fits =
    let start = next_grows a.capacity a.max_size v.limited v.word in
    let (m, run, (low, high)) =
      reach_capacity-total (suc (suc a.max_size)) (next_size_increment a.capacity a.max_size)
        desired a.max_size start.0 fits v.word (omega arith) in
    elim (Option-cases (host.realloc a.data_start m)) [
      | inl e ↦ (
        (record a { status = out_of_memory }, failure),
        ground (arith, run, e),
        (refl, (m, low, high, e)),
      )
      | inr (p, e) ↦ (
        (record a { data_start = p; capacity = m }, success),
        ground (arith, run, e),
        (ground arith, refl, refl, refl, low),
      )
    ]
