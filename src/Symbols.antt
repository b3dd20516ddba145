-- ===== src/Symbols.antt =====
-- src/symtab.c: the symbols of a program, in a hash table by name and in a list by address.
-- A name is its bytes without the final zero; `strdup` is taken to succeed. The address list holds
-- pointers to the symbols of the links, which never change, so that copies stand for them.
pub mod Names
pub mod Rehash
pub mod Addresses
pub mod Table
pub mod Insert
pub mod Added
pub mod Add
pub mod Edits
use unlambda.Base.{
  ℕ, zero, suc, ◌+◌, ◌-◌, ◌*◌, ◌/◌, ◌%◌, ◌^◌, Bool, true, false, not, ◌&&◌, ◌||◌, Option, none,
  some, List, [], ◌∷◌, ◌++◌, length, take, drop, get_or, get_elem?, set, replicate, ltb, leb, ◌==◌,
  if◌then◌else◌, Return, success, failure, u32, min,
}
use unlambda.Base.Host.{Host}
use unlambda.Base.Run.{Run, done, assertion_failed, out_of_bounds, unfinished, ◌>>=◌, ◌>>◌, assert}

-- `statusCode`: 0 and the Symbol...Error constants. The message says the same in words.
pub data SymbolTableStatus : Type 0 where
  ok invalid_argument allocation_failed symbol_exists symbol_at_that_address : SymbolTableStatus
  table_full : SymbolTableStatus

pub record Symbol : Type 0 where
  pub name : List ℕ
  pub address : ℕ

-- `symbols` has `numSymbols` elements, in storage for `list_capacity`; `buckets` has `numBuckets`.
pub record SymbolTable : Type 0 where
  pub max_size : ℕ
  pub num_buckets_index : ℕ
  pub buckets : List (List Symbol)
  pub list_start : ℕ
  pub symbols : List Symbol
  pub list_capacity : ℕ
  pub status : SymbolTableStatus

abbrev pub num_symbols : SymbolTable → ℕ
num_symbols st = length st.symbols

abbrev pub num_buckets : SymbolTable → ℕ
num_buckets st = length st.buckets

abbrev pub set_symbol_table_status : SymbolTable → SymbolTableStatus → SymbolTable
set_symbol_table_status st code = record st { status = code }

abbrev pub hash_table_num_buckets : List ℕ
hash_table_num_buckets =
    17 ∷ 31 ∷ 61 ∷ 127 ∷ 257 ∷ 509 ∷ 1021 ∷ 2053 ∷ 4093 ∷ 8191 ∷ 16381 ∷ 32771 ∷ 65537 ∷ 131071
    ∷ 262147 ∷ 524287 ∷ 1048573 ∷ 2097143 ∷ 4194301 ∷ 8388617 ∷ 16777213 ∷ 33554467 ∷ 67108859
    ∷ 134217757 ∷ 268435459 ∷ 536870909 ∷ 1073741827 ∷ 2147483647 ∷ 4294967291 ∷ []

-- `table_size` stands for the size of the structure.
unfoldable pub create_symbol_table : Host → ℕ → ℕ → Option SymbolTable
create_symbol_table host table_size max_size = elim (host.malloc table_size) [
  | none ↦ none
  | some _ ↦ elim (host.malloc (17 * 8)) [
    | none ↦ none
    | some _ ↦ elim (host.malloc (16 * 8)) [
      | none ↦ none
      | some list ↦ some (record {
        max_size = max_size;
        num_buckets_index = 0;
        buckets = replicate 17 [];
        list_start = list;
        symbols = [];
        list_capacity = 16;
        status = ok;
      })
    ]
  ]
]

-- `char` is signed.
abbrev pub sign_extend : ℕ → ℕ
sign_extend c = if ltb c 128 then c else c + 2 ^ 32 - 256

unfoldable pub hash_from : ℕ → List ℕ → ℕ
hash_from code [] = code
hash_from code (c ∷ cs) = hash_from (u32 (31 * code + sign_extend c)) cs

abbrev pub hash_name : List ℕ → ℕ
hash_name name = hash_from 0 name

-- `!strcmp(a, b)`
unfoldable pub same_name : List ℕ → List ℕ → Bool
same_name [] [] = true
same_name [] (d ∷ ds) = false
same_name (c ∷ cs) [] = false
same_name (c ∷ cs) (d ∷ ds) = (c == d) && same_name cs ds

abbrev pub bucket_of : List (List Symbol) → List ℕ → List Symbol
bucket_of buckets name = get_or buckets (hash_name name % length buckets) []

abbrev pub one_further : Bool × Option ℕ → Bool × Option ℕ
one_further (found, none) = (found, none)
one_further (found, some i) = (found, some (suc i))

-- The loop of `findSymbolByName` over one bucket: whether the name is there, and the index of the
-- link it ends at, if the bucket is not empty.
unfoldable pub walk_bucket : List ℕ → List Symbol → Bool × Option ℕ
walk_bucket name [] = (false, none)
walk_bucket name (s ∷ []) = (same_name name s.name, some 0)
walk_bucket name (s ∷ t ∷ rest) =
    let further = walk_bucket name (t ∷ rest) in
    if same_name name s.name then (true, some 0) else one_further further

unfoldable pub find_symbol_by_name : SymbolTable → List ℕ → Bool × Option ℕ
find_symbol_by_name st name = walk_bucket name (bucket_of st.buckets name)

unfoldable pub find_symbol : SymbolTable → List ℕ → Option Symbol
find_symbol st name =
    let (found, link) = find_symbol_by_name st name in
    if found
    then (elim link [ none ↦ none | some i ↦ get_elem? (bucket_of st.buckets name) i ])
    else none

-- The result of the binary search: the index of the address, or `-i - 1` where it would stand.
pub data Position : Type 0 where
  at missing : ℕ → Position

unfoldable pub search_addresses : ℕ → List Symbol → ℕ → ℕ → ℕ → Run Position
search_addresses zero symbols target i j = unfinished
search_addresses (suc fuel) symbols target i j = elim (ltb i j) [
  | false ↦ assert (i == j) >> done (missing i)
  | true ↦
      let k = (i + j) / 2 in
      elim (get_elem? symbols k) [
        | none ↦ out_of_bounds
        | some s ↦ elim (ltb s.address target) [
          | true ↦ search_addresses fuel symbols target (k + 1) j
          | false ↦ elim (ltb target s.address) [
            | true ↦ search_addresses fuel symbols target i k
            | false ↦ done (at k)
          ]
        ]
      ]
]

unfoldable pub find_symbol_by_address : SymbolTable → ℕ → Run Position
find_symbol_by_address st target =
    search_addresses (suc (num_symbols st)) st.symbols target 0 (num_symbols st)

unfoldable pub get_symbol_at_address : SymbolTable → ℕ → Run (Option Symbol)
get_symbol_at_address st address = do
  p ← find_symbol_by_address st address
  elim p [ at i ↦ done (get_elem? st.symbols i) | missing i ↦ done none ]

-- `symbols[i - 1]`, or NULL where `i` is 0
abbrev pub before : List Symbol → ℕ → Option Symbol
before symbols zero = none
before symbols (suc i) = get_elem? symbols i

unfoldable pub get_symbol_before_address : SymbolTable → ℕ → Run (Option Symbol)
get_symbol_before_address st address = do
  p ← find_symbol_by_address st address
  elim p [ at i ↦ done (before st.symbols i) | missing i ↦ done (before st.symbols i) ]

unfoldable pub get_symbol_at_or_before_address : SymbolTable → ℕ → Run (Option Symbol)
get_symbol_at_or_before_address st address = do
  p ← find_symbol_by_address st address
  elim p [ at i ↦ done (get_elem? st.symbols i) | missing i ↦ done (before st.symbols i) ]

unfoldable pub get_symbol_after_address : SymbolTable → ℕ → Run (Option Symbol)
get_symbol_after_address st address = do
  p ← find_symbol_by_address st address
  elim p [ at i ↦ done (get_elem? st.symbols (i + 1)) | missing i ↦ done (get_elem? st.symbols i) ]

unfoldable pub get_symbol_at_or_after_address : SymbolTable → ℕ → Run (Option Symbol)
get_symbol_at_or_after_address st address = do
  p ← find_symbol_by_address st address
  elim p [ at i ↦ done (get_elem? st.symbols i) | missing i ↦ done (get_elem? st.symbols i) ]

-- A link goes to the front of its bucket.
unfoldable pub put_link_into_bucket : List (List Symbol) → Symbol → List (List Symbol)
put_link_into_bucket buckets s =
    let index = hash_name s.name % length buckets in set buckets index (s ∷ get_or buckets index [])

unfoldable pub rehash_bucket : List Symbol → List (List Symbol) → List (List Symbol)
rehash_bucket [] fresh = fresh
rehash_bucket (s ∷ rest) fresh = rehash_bucket rest (put_link_into_bucket fresh s)

unfoldable pub rehash : List (List Symbol) → List (List Symbol) → List (List Symbol)
rehash [] fresh = fresh
rehash (chain ∷ rest) fresh = rehash rest (rehash_bucket chain fresh)

-- The index begins at 0, grows by one and stops at the end of the list of sizes, which the default
-- size only completes.
unfoldable pub increase_symbol_table_buckets : Host → SymbolTable → SymbolTable
increase_symbol_table_buckets host st =
    let index = st.num_buckets_index + 1 in
    let count = get_or hash_table_num_buckets index 1 in
    if index == length hash_table_num_buckets then st else elim (host.malloc (count * 8)) [
      | none ↦ st
      | some _ ↦ record st {
        buckets = rehash st.buckets (replicate count []);
        num_buckets_index = index;
      }
    ]

-- Conversion to `float`: to 24 bits, to the nearest, ties to even.
unfoldable pub excess_bits : ℕ → ℕ → ℕ
excess_bits zero n = 0
excess_bits (suc fuel) n =
    let rest = excess_bits fuel (n / 2) in if ltb n (2 ^ 24) then 0 else suc rest

unfoldable pub to_float : ℕ → ℕ
to_float n =
    let unit = 2 ^ excess_bits 8 n in
    let low = n / unit in
    let twice = 2 * (n % unit) in
    if ltb twice unit || ((twice == unit) && (low % 2 == 0)) then low * unit else (low + 1) * unit

-- The load, a quotient of two such numbers, is above 1.
abbrev pub over_load : ℕ → ℕ → Bool
over_load symbols buckets = ltb (to_float buckets) (to_float symbols)

-- Room for one symbol more in the address list, as far as the limit allows.
unfoldable pub increase_address_list_size : Host → SymbolTable → SymbolTable × Return
increase_address_list_size host st =
    let size = min (st.list_capacity * 2) st.max_size in
    if ltb st.list_capacity st.max_size
    then (elim (host.realloc st.list_start (size * 8)) [
      | none ↦ (set_symbol_table_status st allocation_failed, failure)
      | some list ↦ (record st { list_start = list; list_capacity = size }, success)
    ])
    else (st, success)

unfoldable pub insert_into_address_list :
    Host → SymbolTable → Symbol → ℕ → Run (SymbolTable × Return)
insert_into_address_list host st s index =
    let (st', code) =
      if num_symbols st == st.list_capacity
      then increase_address_list_size host st
      else (st, success) in
    elim code [
      | failure ↦ done (st', failure)
      | success ↦
          if ltb (num_symbols st') st'.list_capacity
          then done (
            record st' { symbols = take index st'.symbols ++ s ∷ drop index st'.symbols },
            success,
          )
          else out_of_bounds
    ]

-- The end of `addSymbolToTable`: the link goes behind the one that the search ended at.
unfoldable pub append_link : SymbolTable → Symbol → Option ℕ → Run (SymbolTable × Return)
append_link st s link =
    let chain = bucket_of st.buckets s.name in
    let index = hash_name s.name % num_buckets st in
    let added = done (record st { buckets = set st.buckets index (chain ++ s ∷ []) }, success) in
    elim link [
      | none ↦ assert (length chain == 0) >> added
      | some i ↦ assert (suc i == length chain) >> added
    ]

-- The part of `addSymbolToTable` that makes room in the hash table.
unfoldable pub make_buckets : Host → SymbolTable → List ℕ → Option ℕ → Run (SymbolTable × Option ℕ)
make_buckets host st name link =
    if over_load (num_symbols st + 1) (num_buckets st)
    then (let st' = increase_symbol_table_buckets host st in
        let (found, link') = find_symbol_by_name st' name in
        assert (not found) >> done (st', link'))
    else done (st, link)

unfoldable pub add_symbol_to_table :
    Host → ℕ → SymbolTable → List ℕ → ℕ → Run (SymbolTable × Return)
add_symbol_to_table host link_size st name address =
    let st₀ = set_symbol_table_status st ok in
    let (found, link) = find_symbol_by_name st₀ name in
    let s : Symbol = record { name = name; address = address } in
    if found
    then done (set_symbol_table_status st₀ symbol_exists, failure)
    else find_symbol_by_address st₀ address >>= λ position. elim position [
      | at k ↦ done (set_symbol_table_status st₀ symbol_at_that_address, failure)
      | missing i ↦
          if leb st.max_size (num_symbols st)
          then done (set_symbol_table_status st₀ table_full, failure)
          else (do
            (st₁, link') ← make_buckets host st₀ name link
            elim (host.malloc link_size) [
              | none ↦ done (set_symbol_table_status st₁ allocation_failed, failure)
              | some _ ↦ do
                (st₂, code) ← insert_into_address_list host st₁ s i
                elim code [ failure ↦ done (st₂, failure) | success ↦ append_link st₂ s link' ]
            ])
    ]

unfoldable pub clear_symbol_table : SymbolTable → SymbolTable
clear_symbol_table st = record st { buckets = replicate (num_buckets st) []; symbols = [] }
