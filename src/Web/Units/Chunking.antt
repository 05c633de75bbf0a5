-- ===== src/Web/Units/Chunking.antt =====
-- web/src/lib/evmfs.ts and cli/src/batch.ts: the units of the page and of the client.
use evmfs.Prelude.{
  ℕ, zero, suc, ◌+◌, ◌-◌, ◌*◌, min, ◌≡◌, refl, ◌∙◌, ap, inl, inr, List, [], ◌∷◌, ◌++◌, map,
  map-append, length, take, drop, take_all, leb, Bool-cases, arith,
}
use evmfs.Prelude.Text.{codes}
use evmfs.Prelude.Digits.{decimal}
use evmfs.Cli.Batch
use evmfs.Cli.Batch.{
  max_batch_bytes, chunk_count, chunk, chunks_from, whole_file, expand_file, expand_files_to_units,
}
use evmfs.Web.Units.{
  FileEntry, UploadUnit, range, ranges_from, whole, file_units, units_of_files, read_unit,
}

-- What the client's unit has for the page's: the bytes that `readUnit` reads.
abbrev pub read_of : UploadUnit → Batch.UploadUnit
read_of u = record {
  file_index = u.file_index;
  chunk_index = u.chunk_index;
  total_chunks = u.total_chunks;
  name = u.name;
  bytes = read_unit u;
}

-- The client's entry for a file of the page.
abbrev pub entry_of : FileEntry → Batch.FileEntry
entry_of f = record { index = f.index; filename = f.name; compressed = f.file }

read_of-range :
    (f : FileEntry) (total i : ℕ) → read_of (range f total i) ≡ chunk (entry_of f) total i
unfolding range chunk read_unit
read_of-range f total i =
    let offset = i * max_batch_bytes in
    let end = min (offset + max_batch_bytes) (length f.file) in
    let e : offset + (end - offset) - offset ≡ end - offset = omega arith in
    ap
      (λ n. record {
        file_index = f.index;
        chunk_index = i;
        total_chunks = total;
        name = f.name ++ codes "#" ++ decimal (i + 1) ++ codes "/" ++ decimal total;
        bytes = take n (drop offset f.file);
      })
      e

read_of-ranges_from :
    (f : FileEntry) (total i left : ℕ)
    → map read_of (ranges_from f total i left) ≡ chunks_from (entry_of f) total i left
unfolding ranges_from chunks_from
read_of-ranges_from f total i zero = refl
read_of-ranges_from f total i (suc left) =
    ap (λ u. u ∷ map read_of (ranges_from f total (suc i) left)) (read_of-range f total i)
    ∙ ap (λ t. chunk (entry_of f) total i ∷ t) (read_of-ranges_from f total (suc i) left)

read_of-whole : (f : FileEntry) → read_of (whole f) ≡ whole_file (entry_of f)
unfolding whole whole_file read_unit
read_of-whole f =
    let n : 0 + length f.file - 0 ≡ length f.file = omega arith in
    let e : take (0 + length f.file - 0) f.file ≡ f.file =
      rw n (take_all (length f.file) f.file (omega arith)) in
    ap
      (λ t. record {
        file_index = f.index;
        chunk_index = 0;
        total_chunks = 1;
        name = f.name;
        bytes = t;
      })
      e

read_of-file_units : (f : FileEntry) → map read_of (file_units f) ≡ expand_file (entry_of f)
unfolding file_units expand_file
read_of-file_units f = elim (Bool-cases (leb (length f.file) max_batch_bytes)) [
  | inl small ↦ rw small (ap (λ u. u ∷ []) (read_of-whole f))
  | inr large ↦
      let total = chunk_count (length f.file) in rw large (read_of-ranges_from f total 0 total)
]

-- The page's units, each with the bytes that are read for it, are the client's units of the same
-- files.
pub units_of_files-expand_files_to_units :
    (files : List FileEntry)
    → map read_of (units_of_files files) ≡ expand_files_to_units (map entry_of files)
unfolding units_of_files expand_files_to_units
units_of_files-expand_files_to_units [] = refl
units_of_files-expand_files_to_units (f ∷ files) =
    map-append read_of (file_units f) (units_of_files files)
    ∙ ap (λ t. t ++ map read_of (units_of_files files)) (read_of-file_units f)
    ∙ ap (λ t. expand_file (entry_of f) ++ t) (units_of_files-expand_files_to_units files)
