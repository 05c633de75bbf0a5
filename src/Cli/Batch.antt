-- ===== src/Cli/Batch.antt =====
-- cli/src/batch.ts: files are cut into upload units, and units are packed into transactions.
pub mod Order
pub mod Limits
pub mod Estimate
pub mod Files
pub mod Places
pub mod Expand
use evmfs.Prelude.{
  ℕ, zero, suc, ◌+◌, ◌-◌, ◌*◌, ◌/◌, min, Bool, true, false, ◌&&◌, ◌||◌, Option, none, some, List,
  [], ◌∷◌, ◌++◌, length, take, drop, ltb, leb, if◌then◌else◌,
}
use evmfs.Prelude.Text.{Text, codes}
use evmfs.Prelude.Digits.{decimal}

pub record FileEntry : Type 0 where
  pub index : ℕ
  pub filename : Text
  pub compressed : List ℕ

pub record UploadUnit : Type 0 where
  pub file_index : ℕ
  pub chunk_index : ℕ
  pub total_chunks : ℕ
  pub name : Text
  pub bytes : List ℕ

pub record Batch : Type 0 where
  pub units : List UploadUnit
  pub estimated_gas : ℕ
  pub byte_size : ℕ

abbrev pub base_tx_gas : ℕ
base_tx_gas = 21000

abbrev pub per_file_overhead : ℕ
per_file_overhead = 1750

abbrev pub per_byte_gas : ℕ
per_byte_gas = 24

abbrev pub batch_call_overhead : ℕ
batch_call_overhead = 10000

abbrev pub max_batch_bytes : ℕ
max_batch_bytes = 100000

abbrev pub estimate_file_gas : ℕ → ℕ
estimate_file_gas compressed_size = compressed_size * per_byte_gas + per_file_overhead

-- `xs.subarray(start, end)`
abbrev pub subarray : List ℕ → ℕ → ℕ → List ℕ
subarray xs start end = take (end - start) (drop start xs)

-- `Math.ceil(n / MAX_BATCH_BYTES)`
abbrev pub chunk_count : ℕ → ℕ
chunk_count n = (n + 99999) / max_batch_bytes

-- The unit that one round of the inner loop pushes.
unfoldable pub chunk : FileEntry → ℕ → ℕ → UploadUnit
chunk f total i =
    let offset = i * max_batch_bytes in
    let end = min (offset + max_batch_bytes) (length f.compressed) in
    record {
      file_index = f.index;
      chunk_index = i;
      total_chunks = total;
      name = f.filename ++ codes "#" ++ decimal (i + 1) ++ codes "/" ++ decimal total;
      bytes = subarray f.compressed offset end;
    }

-- The inner loop from round `i`, with the rounds that are left.
unfoldable pub chunks_from : FileEntry → ℕ → ℕ → ℕ → List UploadUnit
chunks_from f total i zero = []
chunks_from f total i (suc left) = chunk f total i ∷ chunks_from f total (suc i) left

-- The unit of a file that is not cut.
unfoldable pub whole_file : FileEntry → UploadUnit
whole_file f = record {
  file_index = f.index;
  chunk_index = 0;
  total_chunks = 1;
  name = f.filename;
  bytes = f.compressed;
}

-- The units that one round of the outer loop pushes.
unfoldable pub expand_file : FileEntry → List UploadUnit
expand_file f =
    if leb (length f.compressed) max_batch_bytes
    then whole_file f ∷ []
    else (let total = chunk_count (length f.compressed) in chunks_from f total 0 total)

unfoldable pub expand_files_to_units : List FileEntry → List UploadUnit
expand_files_to_units [] = []
expand_files_to_units (f ∷ files) = expand_file f ++ expand_files_to_units files

total_from : ℕ → List UploadUnit → ℕ
total_from total [] = total
total_from total (u ∷ units) = total_from (total + estimate_file_gas (length u.bytes)) units

unfoldable pub estimate_total_gas : List UploadUnit → ℕ
unfolding total_from
estimate_total_gas units = total_from 0 units + batch_call_overhead

-- The variables of the loop of `packBatches`.
pub record Packing : Type 0 where
  pub batches : List Batch
  pub current_units : List UploadUnit
  pub current_gas : ℕ
  pub current_bytes : ℕ

abbrev pub start : List Batch → Packing
start batches = record {
  batches = batches;
  current_units = [];
  current_gas = base_tx_gas + batch_call_overhead;
  current_bytes = 0;
}

-- The batch that the loop variables describe.
abbrev pub current : Packing → Batch
current p = record {
  units = p.current_units;
  estimated_gas = p.current_gas;
  byte_size = p.current_bytes;
}

-- `gas > gasLimit`. The limit comes from `parseInt`: `none` is NaN, which no number exceeds. A
-- negative limit, which every sum exceeds, behaves as 0 does.
abbrev pub exceeds : ℕ → Option ℕ → Bool
exceeds gas none = false
exceeds gas (some limit) = ltb limit gas

abbrev pub is_empty : List UploadUnit → Bool
is_empty [] = true
is_empty (_ ∷ _) = false

-- The test that closes the current batch before `u` is added.
abbrev pub overflows : Option ℕ → Packing → UploadUnit → Bool
overflows limit p u =
    exceeds (p.current_gas + estimate_file_gas (length u.bytes)) limit
    || ltb max_batch_bytes (p.current_bytes + length u.bytes)

abbrev pub push : Packing → UploadUnit → Packing
push p u = record p {
  current_units = p.current_units ++ u ∷ [];
  current_gas = p.current_gas + estimate_file_gas (length u.bytes);
  current_bytes = p.current_bytes + length u.bytes;
}

unfoldable pub pack_step : Option ℕ → Packing → UploadUnit → Packing
pack_step limit p u = elim (is_empty p.current_units) [
  | true ↦ push p u
  | false ↦ if overflows limit p u then push (start (p.batches ++ current p ∷ [])) u else push p u
]

unfoldable pub finish : Packing → List Batch
finish p = if is_empty p.current_units then p.batches else p.batches ++ current p ∷ []

unfoldable pub pack_from : Option ℕ → Packing → List UploadUnit → Packing
pack_from limit p [] = p
pack_from limit p (u ∷ units) = pack_from limit (pack_step limit p u) units

unfoldable pub pack_batches : List UploadUnit → Option ℕ → List Batch
unfolding pack_from finish
pack_batches units limit = finish (pack_from limit (start []) units)
