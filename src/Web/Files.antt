-- ===== src/Web/Files.antt =====
-- web/src/hooks/useFileProcessor.ts, web/src/lib/fee.ts and `handleFiles` of web/src/App.tsx: the
-- files that are picked, in order, their batches and the protocol fee. `localeCompare` is a parameter.
pub mod Totals
pub mod Labels
use evmfs.Prelude.{
  ℕ, zero, suc, ◌+◌, ◌*◌, Bool, ◌&&◌, Option, none, some, List, [], ◌∷◌, map, length, get_elem?,
  keep, ltb, ◌==◌,
}
use evmfs.Prelude.Text.{Text}
use evmfs.Prelude.Sort.{sort}
use evmfs.Web.Units.{FileEntry, UploadUnit, Batch, units_of_files, batches_of_units}

-- A picked file: its base name, its content and its path below the folder.
pub record PickedFile : Type 0 where
  pub name : Text
  pub content : List ℕ
  pub relative_path : Text

abbrev pub gas_limit : ℕ
gas_limit = 28000000

-- `totalCompressedSize` is `totalOriginalSize`.
pub record ProcessedFiles : Type 0 where
  pub files : List FileEntry
  pub units : List UploadUnit
  pub batches : List Batch
  pub total_gas : ℕ
  pub total_original_size : ℕ
  pub total_units : ℕ
  pub chunked_file_count : ℕ

-- `sorted.map((file, i) => ...)` from the index `i`
unfoldable pub entries_of : ℕ → List PickedFile → List FileEntry
entries_of i [] = []
entries_of i (f ∷ files) =
    record { index = i; name = f.name; file = f.content } ∷ entries_of (suc i) files

abbrev pub size_sum : List FileEntry → ℕ
size_sum [] = 0
size_sum (e ∷ entries) = length e.file + size_sum entries

abbrev pub batch_gas_sum : List Batch → ℕ
batch_gas_sum [] = 0
batch_gas_sum (b ∷ batches) = b.estimated_gas + batch_gas_sum batches

abbrev pub starts_chunked : UploadUnit → Bool
starts_chunked u = ltb 1 u.total_chunks && u.chunk_index == 0

abbrev pub fee_per_byte : ℕ
fee_per_byte = 100000000

abbrev pub calculate_fee : ℕ → ℕ
calculate_fee total_compressed_bytes = fee_per_byte * total_compressed_bytes

-- `locale_le a b` is `a.localeCompare(b, undefined, { numeric: true }) <= 0`.
module _ (locale_le : Text → Text → Bool) where
  abbrev pub name_le : PickedFile → PickedFile → Bool
  name_le a b = locale_le a.name b.name

  abbrev pub path_le : PickedFile → PickedFile → Bool
  path_le a b = locale_le a.relative_path b.relative_path

  unfoldable pub process_files : List PickedFile → ProcessedFiles
  process_files input_files =
      let entries = entries_of 0 (sort name_le input_files) in
      let units = units_of_files entries in
      let batches = batches_of_units units gas_limit in
      record {
        files = entries;
        units = units;
        batches = batches;
        total_gas = batch_gas_sum batches + 200000;
        total_original_size = size_sum entries;
        total_units = length units;
        chunked_file_count = length (keep starts_chunked units);
      }

  -- `handleFiles` for a site: the paths by index, and the files that are processed.
  unfoldable pub handle_site : List PickedFile → (ℕ → Option Text) × ProcessedFiles
  handle_site files =
      let sorted = sort path_le files in
      (get_elem? (map (λ f. f.relative_path) sorted), process_files sorted)

  -- `handleFiles` for loose files
  unfoldable pub handle_loose : List PickedFile → (ℕ → Option Text) × ProcessedFiles
  handle_loose files = ((λ i. none), process_files files)
