-- ===== src/Web/Units.antt =====
-- web/src/lib/evmfs.ts: units that name a part of a file, and their packing into transactions.
pub mod Chunking
pub mod Packed
use evmfs.Prelude.{
  ℕ, zero, suc, ◌+◌, ◌-◌, ◌*◌, min, Bool, true, false, ◌||◌, List, [], ◌∷◌, ◌++◌, length, take,
  drop, ltb, leb, if◌then◌else◌,
}
use evmfs.Prelude.Text.{Text, codes}
use evmfs.Prelude.Digits.{decimal}
use evmfs.Cli.Batch.{max_batch_bytes, chunk_count}

-- A `File` is its content. `MAX_BATCH_BYTES` is that of the command line client.
pub record FileEntry : Type 0 where
  pub index : ℕ
  pub name : Text
  pub file : List ℕ

pub record UploadUnit : Type 0 where
  pub file_index : ℕ
  pub chunk_index : ℕ
  pub total_chunks : ℕ
  pub name : Text
  pub byte_length : ℕ
  pub file : List ℕ
  pub byte_offset : ℕ

pub record Batch : Type 0 where
  pub units : List UploadUnit
  pub estimated_gas : ℕ
  pub byte_size : ℕ

abbrev pub base_tx_gas : ℕ
base_tx_gas = 21000

abbrev pub per_file_overhead : ℕ
per_file_overhead = 5000

abbrev pub per_byte_gas : ℕ
per_byte_gas = 26

abbrev pub batch_call_overhead : ℕ
batch_call_overhead = 10000

abbrev pub estimate_file_gas : ℕ → ℕ
estimate_file_gas file_size = file_size * per_byte_gas + per_file_overhead

-- The unit of one round of the inner loop.
unfoldable pub range : FileEntry → ℕ → ℕ → UploadUnit
range f total i =
    let offset = i * max_batch_bytes in
    let end = min (offset + max_batch_bytes) (length f.file) in
    record {
      file_index = f.index;
      chunk_index = i;
      total_chunks = total;
      name = f.name ++ codes "#" ++ decimal (i + 1) ++ codes "/" ++ decimal total;
      byte_length = end - offset;
      file = f.file;
      byte_offset = offset;
    }

unfoldable pub ranges_from : FileEntry → ℕ → ℕ → ℕ → List UploadUnit
ranges_from f total i zero = []
ranges_from f total i (suc left) = range f total i ∷ ranges_from f total (suc i) left

unfoldable pub whole : FileEntry → UploadUnit
whole f = record {
  file_index = f.index;
  chunk_index = 0;
  total_chunks = 1;
  name = f.name;
  byte_length = length f.file;
  file = f.file;
  byte_offset = 0;
}

unfoldable pub file_units : FileEntry → List UploadUnit
file_units f =
    if leb (length f.file) max_batch_bytes
    then whole f ∷ []
    else (let total = chunk_count (length f.file) in ranges_from f total 0 total)

-- `expandFilesToUnits`
unfoldable pub units_of_files : List FileEntry → List UploadUnit
units_of_files [] = []
units_of_files (f ∷ files) = file_units f ++ units_of_files files

-- `file.slice(byteOffset, byteOffset + byteLength)`
unfoldable pub read_unit : UploadUnit → List ℕ
read_unit u = take (u.byte_offset + u.byte_length - u.byte_offset) (drop u.byte_offset u.file)

-- The variables of the loop of `packBatches`.
pub record Loading : Type 0 where
  pub batches : List Batch
  pub current_units : List UploadUnit
  pub current_gas : ℕ
  pub current_bytes : ℕ

abbrev pub emptied : List Batch → Loading
emptied batches = record {
  batches = batches;
  current_units = [];
  current_gas = base_tx_gas + batch_call_overhead;
  current_bytes = 0;
}

abbrev pub loaded : Loading → Batch
loaded p = record {
  units = p.current_units;
  estimated_gas = p.current_gas;
  byte_size = p.current_bytes;
}

abbrev pub has_none : List UploadUnit → Bool
has_none [] = true
has_none (_ ∷ _) = false

abbrev pub exceeds_limit : ℕ → Loading → UploadUnit → Bool
exceeds_limit gas_limit p u =
    ltb gas_limit (p.current_gas + estimate_file_gas u.byte_length)
    || ltb max_batch_bytes (p.current_bytes + u.byte_length)

abbrev pub load : Loading → UploadUnit → Loading
load p u = record p {
  current_units = p.current_units ++ u ∷ [];
  current_gas = p.current_gas + estimate_file_gas u.byte_length;
  current_bytes = p.current_bytes + u.byte_length;
}

unfoldable pub load_step : ℕ → Loading → UploadUnit → Loading
load_step gas_limit p u = elim (has_none p.current_units) [
  | true ↦ load p u
  | false ↦
      if exceeds_limit gas_limit p u
      then load (emptied (p.batches ++ loaded p ∷ [])) u
      else load p u
]

unfoldable pub load_from : ℕ → Loading → List UploadUnit → Loading
load_from gas_limit p [] = p
load_from gas_limit p (u ∷ units) = load_from gas_limit (load_step gas_limit p u) units

unfoldable pub closing : Loading → List Batch
closing p = if has_none p.current_units then p.batches else p.batches ++ loaded p ∷ []

-- `packBatches`
unfoldable pub batches_of_units : List UploadUnit → ℕ → List Batch
unfolding load_from closing
batches_of_units units gas_limit = closing (load_from gas_limit (emptied []) units)
