-- ===== src/Image.antt =====
-- src/vm_image.c: program images. Messages are left out; `lseek` serves only them.
pub mod Cursor
pub mod Buffer
pub mod Save
pub mod Restore
pub mod RoundTrip
use unlambda.Base.{
  ℕ, zero, suc, ◌+◌, ◌^◌, Bool, true, false, ◌||◌, Option, none, some, List, [], ◌∷◌, ◌++◌, length,
  take, slice, ltb, leb, ◌==◌, if◌then◌else◌, Return, success, failure,
}
use unlambda.Base.Host.{Host}
use unlambda.Base.Run.{Run, done, out_of_bounds, ◌>>=◌}
use unlambda.Files.{Files, read_only, write_or_create, open_file, read_from_file, write_to_file}
use unlambda.Memory.Bytes.{Bytes, bytes_of, number_of, read64, store_byte, write_bytes}
use unlambda.Memory.State.{VmMemory}
use unlambda.Memory.Grow.{reserve_vm_memory_for_program}
use unlambda.Symbols.{Symbol, SymbolTable, same_name, add_symbol_to_table, num_symbols}

-- 0, and the VmImage...Error constants
pub data ImageStatus : Type 0 where
  ok illegal_argument program_already_loaded io_error format_error out_of_memory : ImageStatus

pub record Header : Type 0 where
  pub program_size : ℕ
  pub symbols_size : ℕ
  pub start : ℕ

-- "MOO4COWS"
abbrev pub magic : List ℕ
magic = 77 ∷ 79 ∷ 79 ∷ 52 ∷ 67 ∷ 79 ∷ 87 ∷ 83 ∷ []

-- What the 24 bytes of a header say.
abbrev pub header_fields : List ℕ → Header
header_fields bytes = record {
  program_size = number_of (slice 8 4 bytes);
  symbols_size = number_of (slice 12 4 bytes);
  start = number_of (slice 16 4 bytes);
}

abbrev pub no_header : Header
no_header = record { program_size = 0; symbols_size = 0; start = 0 }

-- `strncmp` with a text of eight bytes that are not zero tests these eight.
unfoldable pub read_header : (fs : Files) → fs.World → fs.World × ImageStatus × Header
read_header fs w =
    let (w', bytes, code) = read_from_file fs w 24 in
    elim code [
      | failure ↦ (w', io_error, no_header)
      | success ↦
          if same_name (take 8 bytes) magic
          then (w', ok, header_fields bytes)
          else (w', format_error, no_header)
    ]

unfoldable pub load_vm_program_header : (fs : Files) → fs.World → fs.World × ImageStatus × Header
load_vm_program_header fs w = elim (open_file fs w read_only) [
  | none ↦ (w, io_error, no_header)
  | some w₁ ↦ let (w₂, result, h) = read_header fs w₁ in (fs.close w₂, result, h)
]

abbrev pub header_bytes : Header → List ℕ
header_bytes h =
    magic
    ++ (bytes_of 4 h.program_size
        ++ (bytes_of 4 h.symbols_size ++ (bytes_of 4 h.start ++ bytes_of 4 0)))

unfoldable pub write_header : (fs : Files) → fs.World → Header → fs.World × ImageStatus
write_header fs w h =
    let (w', code) = write_to_file fs w (header_bytes h) in
    elim code [ failure ↦ (w', io_error) | success ↦ (w', ok) ]

-- The C string at an address of the buffer of 257 bytes.
unfoldable pub c_string : ℕ → Bytes → ℕ → Run (List ℕ)
c_string zero buffer p = out_of_bounds
c_string (suc left) buffer p = elim (buffer p == 0) [
  | true ↦ done []
  | false ↦ do rest ← c_string left buffer (p + 1); done (buffer p ∷ rest)
]

-- `buffer` begins as the stack leaves it, and keeps what the last symbol left.
unfoldable pub load_symbols_from_file :
    (fs : Files)
    → Host
    → ℕ
    → fs.World
    → Bytes
    → ℕ
    → SymbolTable
    → Run (fs.World × SymbolTable × ImageStatus)
load_symbols_from_file fs host link_size w buffer zero st = done (w, st, ok)
load_symbols_from_file fs host link_size w buffer (suc count) st =
    let (w₁, first, code₁) = read_from_file fs w 1 in
    elim code₁ [
      | failure ↦ done (w₁, st, io_error)
      | success ↦
          let size = number_of first in
          let (w₂, bytes, code₂) = read_from_file fs w₁ size in
          elim code₂ [
            | failure ↦ done (w₂, st, io_error)
            | success ↦
                let buffer' = store_byte (write_bytes buffer 0 bytes) size 0 in
                do
                  name ← c_string 249 buffer' 8
                  (st', code) ← add_symbol_to_table host link_size st name (read64 buffer' 0)
                  elim code [
                    | failure ↦ done (w₂, st', format_error)
                    | success ↦ load_symbols_from_file fs host link_size w₂ buffer' count st'
                  ]
          ]
    ]

-- What loading leaves; `start_address` is that of the caller, which begins with 0.
pub record Load (fs : Files) : Type 0 where
  pub world : fs.World
  pub memory : VmMemory
  pub symbols : SymbolTable
  pub start_address : ℕ
  pub result : ImageStatus

abbrev no_load : {fs : Files} → fs.World → VmMemory → SymbolTable → ImageStatus → Load fs
no_load w m st result = record {
  world = w;
  memory = m;
  symbols = st;
  start_address = 0;
  result = result;
}

-- The program goes to the start of the memory, as far as it is read.
unfoldable pub load_vm_program_image :
    (fs : Files) → Host → ℕ → fs.World → Bytes → VmMemory → SymbolTable → Bool → Run (Load fs)
load_vm_program_image fs host link_size w stale m st with_symbols =
    elim (open_file fs w read_only) [
      | none ↦ done (no_load w m st io_error)
      | some w₁ ↦
          let (w₂, result, h) = read_header fs w₁ in
          elim result [
            | ok ↦ do
              (m₁, code) ← reserve_vm_memory_for_program host m h.program_size
              elim code [
                | failure ↦ done (no_load (fs.close w₂) m₁ st out_of_memory)
                | success ↦
                    let (w₃, bytes, read) = read_from_file fs w₂ h.program_size in
                    let m₂ = record m₁ { bytes = write_bytes m₁.bytes 0 bytes } in
                    elim read [
                      | failure ↦ done (no_load (fs.close w₃) m₂ st io_error)
                      | success ↦ do
                        (w₄, st', result') ←
                            (if with_symbols
                              then load_symbols_from_file fs host link_size w₃ stale h.symbols_size
                                  st
                              else done (w₃, st, ok))
                        done (record {
                          world = fs.close w₄;
                          memory = m₂;
                          symbols = st';
                          start_address = h.start;
                          result = result';
                        })
                    ]
              ]
            | other ↦ done (no_load (fs.close w₂) m st other)
          ]
    ]

abbrev pub max_symbol_name_len : ℕ
max_symbol_name_len = 247

abbrev pub symbol_bytes : Symbol → List ℕ
symbol_bytes s = (length s.name + 8) ∷ bytes_of 8 s.address ++ s.name

unfoldable pub save_symbols : (fs : Files) → fs.World → List Symbol → fs.World × ImageStatus
save_symbols fs w [] = (w, ok)
save_symbols fs w (s ∷ rest) = elim (ltb max_symbol_name_len (length s.name)) [
  | true ↦ (w, format_error)
  | false ↦
      let (w', code) = write_to_file fs w (symbol_bytes s) in
      elim code [ failure ↦ (w', io_error) | success ↦ save_symbols fs w' rest ]
]

abbrev pub listed_symbols : Option SymbolTable → List Symbol
listed_symbols none = []
listed_symbols (some st) = st.symbols

-- A size above 32 bits and a failed write of the program both return -1, `illegal_argument`.
unfoldable pub save_vm_program_image :
    (fs : Files) → fs.World → List ℕ → ℕ → Option SymbolTable → fs.World × ImageStatus
save_vm_program_image fs w program start st =
    if ltb 0xFFFF_FFFF (length program) || leb (length program) start
    then (w, illegal_argument)
    else elim (open_file fs w write_or_create) [
      | none ↦ (w, illegal_argument)
      | some w₁ ↦
          let (w₂, result) = write_header fs w₁ (record {
            program_size = length program;
            symbols_size = length (listed_symbols st);
            start = start;
          }) in
          elim result [
            | ok ↦
                let (w₃, code) = write_to_file fs w₂ program in
                elim code [
                  | failure ↦ (fs.close w₃, illegal_argument)
                  | success ↦
                      let (w₄, result') = save_symbols fs w₃ (listed_symbols st) in
                      (fs.close w₄, result')
                ]
            | other ↦ (fs.close w₂, other)
          ]
    ]
