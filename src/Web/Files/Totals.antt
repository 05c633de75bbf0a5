-- ===== src/Web/Files/Totals.antt =====
-- web/src/hooks/useFileProcessor.ts: the totals that are shown.
use evmfs.Prelude.{
  ℕ, zero, suc, ◌+◌, ◌*◌, ◌≤◌, ◌≡◌, refl, ap, ◌∙◌, inl, inr, Bool, true, false, List, [], ◌∷◌, ◌++◌,
  length, length-append, keep, ltb, leb, Bool-cases, if◌then◌else◌, arith,
}
use evmfs.Prelude.Text.{Text}
use evmfs.Prelude.Sort.{sort, sum_by, sum_by-sort}
use evmfs.Prelude.Member.{keep-append}
use evmfs.Cli.Batch.{max_batch_bytes, chunk_count}
use evmfs.Web.Units.{FileEntry, range, ranges_from, whole, file_units, units_of_files}
use evmfs.Web.Files.{
  PickedFile, entries_of, size_sum, starts_chunked, calculate_fee, fee_per_byte, process_files,
  name_le,
}

-- One for a file that is too large for one unit.
abbrev pub large_weight : PickedFile → ℕ
large_weight f = if ltb max_batch_bytes (length f.content) then 1 else 0

-- Only the first range of a file starts it.
later_range : (f : FileEntry) (total i : ℕ) → starts_chunked (range f total (suc i)) ≡ false
unfolding range
later_range f total i = ground arith

keep-ranges_from :
    (f : FileEntry) (total i left : ℕ) → keep starts_chunked (ranges_from f total (suc i) left) ≡ []
unfolding ranges_from
keep-ranges_from f total i zero = refl
keep-ranges_from f total i (suc left) =
    rw (later_range f total i) (keep-ranges_from f total (suc i) left)

zeroth_range : (f : FileEntry) (total : ℕ) → 2 ≤ total → starts_chunked (range f total 0) ≡ true
unfolding range
zeroth_range f total h = ground arith

one_start :
    (f : FileEntry) (total : ℕ)
    → 2 ≤ total
    → length (keep starts_chunked (ranges_from f total 0 total)) ≡ 1
unfolding ranges_from
one_start f zero h = absurd (omega arith)
one_start f (suc left) h =
    rw (zeroth_range f (suc left) h, keep-ranges_from f (suc left) 0 left) refl

large_chunks : (n : ℕ) → ltb 100000 n ≡ true → 2 ≤ chunk_count n
large_chunks n h = ground arith

large_file_units :
    (f : FileEntry)
    → length (keep starts_chunked (file_units f))
      ≡ (if ltb max_batch_bytes (length f.file) then 1 else 0)
unfolding file_units whole
large_file_units f = elim (Bool-cases (leb (length f.file) max_batch_bytes)) [
  | inl e ↦
      let n : ltb max_batch_bytes (length f.file) ≡ false = small (length f.file) e in
      rw (e, n) refl
  | inr e ↦
      let y : ltb max_batch_bytes (length f.file) ≡ true = large (length f.file) e in
      rw (e, y) (one_start f (chunk_count (length f.file)) (large_chunks (length f.file) y))
]
  where
    small : (n : ℕ) → leb n 100000 ≡ true → ltb 100000 n ≡ false
    small n h = ground arith

    large : (n : ℕ) → leb n 100000 ≡ false → ltb 100000 n ≡ true
    large n h = ground arith

large_units :
    (i : ℕ) (files : List PickedFile)
    → length (keep starts_chunked (units_of_files (entries_of i files))) ≡ sum_by large_weight files
unfolding units_of_files entries_of
large_units i [] = refl
large_units i (f ∷ files) =
    let e : FileEntry = record { index = i; name = f.name; file = f.content } in
    let units = units_of_files (entries_of (suc i) files) in
    let split : length (keep starts_chunked (file_units e ++ units))
        ≡ length (keep starts_chunked (file_units e)) + length (keep starts_chunked units) =
      ap length (keep-append starts_chunked (file_units e) units)
      ∙ length-append (keep starts_chunked (file_units e)) (keep starts_chunked units) in
    omega (arith, split, large_file_units e, large_units (suc i) files)

size_sum-entries_of :
    (i : ℕ) (files : List PickedFile)
    → size_sum (entries_of i files) ≡ sum_by (λ f. length f.content) files
unfolding entries_of
size_sum-entries_of i [] = refl
size_sum-entries_of i (f ∷ files) = omega (arith, size_sum-entries_of (suc i) files)

-- What the page shows of the picked files does not depend on their order: the number of chunked
-- files is the number of files of more than 100,000 bytes, and the fee is the price of a byte for
-- every byte of every file.
pub process_files-counts :
    (locale_le : Text → Text → Bool) (files : List PickedFile)
    → let p = process_files locale_le files in
      (p.chunked_file_count ≡ sum_by large_weight files)
      × (calculate_fee p.total_original_size ≡ fee_per_byte * sum_by (λ f. length f.content) files)
unfolding process_files
process_files-counts locale_le files =
    let le = name_le locale_le in
    let sorted = sort le files in
    (
      large_units 0 sorted ∙ sum_by-sort le large_weight files,
      ap calculate_fee
          (size_sum-entries_of 0 sorted ∙ sum_by-sort le (λ f. length f.content) files),
    )
