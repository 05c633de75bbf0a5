-- ===== src/Cli/Batch/Files.antt =====
-- cli/src/batch.ts, `expandFilesToUnits`: which of all the units belong to one file.
use evmfs.Prelude.{
  ℕ, zero, suc, ◌≤◌, ◌<◌, ◌≡◌, refl, ◌∙◌, ap, ap₂, ◌⊎◌, inl, inr, Bool, true, false, List, [], ◌∷◌,
  ◌++◌, append-nil, keep, length, All, ◌==◌, leb, Bool-cases, arith,
}
use evmfs.Prelude.Member.{In, All-In, In-All, keep-append, keep_every, keep_none}
use evmfs.Cli.Batch.{
  FileEntry, UploadUnit, max_batch_bytes, chunk_count, chunk, chunks_from, whole_file, expand_file,
  expand_files_to_units,
}

-- `files.map((…, index) => …)`: the files are numbered from `i`.
abbrev pub IndexedFrom : ℕ → List FileEntry → Type 0
IndexedFrom i [] = Unit
IndexedFrom i (f ∷ files) = (f.index ≡ i) × IndexedFrom (suc i) files

-- The units stand at places `i`, `i + 1` and so on.
abbrev pub ConsecutiveFrom : ℕ → List UploadUnit → Type 0
ConsecutiveFrom i [] = Unit
ConsecutiveFrom i (u ∷ units) = (u.chunk_index ≡ i) × ConsecutiveFrom (suc i) units

chunks_from-Consecutive :
    (f : FileEntry) (total i left : ℕ) → ConsecutiveFrom i (chunks_from f total i left)
unfolding chunks_from chunk
chunks_from-Consecutive f total i zero = tt
chunks_from-Consecutive f total i (suc left) = (refl, chunks_from-Consecutive f total (suc i) left)

pub expand_file-Consecutive : (f : FileEntry) → ConsecutiveFrom 0 (expand_file f)
unfolding expand_file whole_file
expand_file-Consecutive f = elim (Bool-cases (leb (length f.compressed) max_batch_bytes)) [
  | inl small ↦ rw small (refl, tt)
  | inr large ↦ rw large (
      chunks_from-Consecutive f (chunk_count (length f.compressed)) 0
        (chunk_count (length f.compressed)))
]

chunks_from-file :
    (f : FileEntry) (total i left : ℕ)
    → All (λ u. u.file_index ≡ f.index) (chunks_from f total i left)
unfolding chunks_from chunk
chunks_from-file f total i zero = tt
chunks_from-file f total i (suc left) = (refl, chunks_from-file f total (suc i) left)

pub expand_file-file : (f : FileEntry) → All (λ u. u.file_index ≡ f.index) (expand_file f)
unfolding expand_file whole_file
expand_file-file f = elim (Bool-cases (leb (length f.compressed) max_batch_bytes)) [
  | inl small ↦ rw small (refl, tt)
  | inr large ↦
      rw large (
        chunks_from-file f (chunk_count (length f.compressed)) 0
          (chunk_count (length f.compressed)))
]

index-le :
    (i : ℕ) (files : List FileEntry) (f : FileEntry)
    → IndexedFrom i files
    → In f files
    → i ≤ f.index
index-le i [] f x h = absurd h
index-le i (g ∷ files) f (e, x) (inl same) =
    let k = ap (λ (z : FileEntry). z.index) same in omega arith
index-le i (g ∷ files) f (e, x) (inr h) = omega (arith, index-le (suc i) files f x h)

abbrev of_index : ℕ → UploadUnit → Bool
of_index i u = u.file_index == i

own_units : (f : FileEntry) → keep (of_index f.index) (expand_file f) ≡ expand_file f
own_units f = keep_every (of_index f.index) (expand_file f) (
    All-In (λ u. of_index f.index u ≡ true) (expand_file f)
      (λ u i.
        let e = In-All (λ u. u.file_index ≡ f.index) (expand_file f) u (expand_file-file f) i in
        ground arith))

other_units :
    (f : FileEntry) (i : ℕ) → f.index < i ⊎ i < f.index → keep (of_index i) (expand_file f) ≡ []
other_units f i ne = keep_none (of_index i) (expand_file f) (
    All-In (λ u. of_index i u ≡ false) (expand_file f)
      (λ u j.
        let e = In-All (λ u. u.file_index ≡ f.index) (expand_file f) u (expand_file-file f) j in
        ground arith))

later_units :
    (i j : ℕ) (files : List FileEntry)
    → IndexedFrom i files
    → j < i
    → keep (of_index j) (expand_files_to_units files) ≡ []
unfolding expand_files_to_units
later_units i j [] x h = refl
later_units i j (f ∷ files) (e, x) h =
    keep-append (of_index j) (expand_file f) (expand_files_to_units files)
    ∙ ap₂ (λ s t. s ++ t) (other_units f j (inr (omega arith)))
        (later_units (suc i) j files x (omega arith))

-- Of all units those with a file's index are the file's own, in order.
pub units_of-file :
    (i : ℕ) (files : List FileEntry) (f : FileEntry)
    → IndexedFrom i files
    → In f files
    → keep (of_index f.index) (expand_files_to_units files) ≡ expand_file f
unfolding expand_files_to_units
units_of-file i [] f x h = absurd h
units_of-file i (g ∷ files) f (e, x) (inl same) =
    keep-append (of_index f.index) (expand_file g) (expand_files_to_units files)
    ∙ ap₂ (λ s t. s ++ t) (ap (λ z. keep (of_index f.index) (expand_file z)) same ∙ own_units f)
        (later_units (suc i) f.index files x
          (let k = ap (λ (z : FileEntry). z.index) same in omega arith))
    ∙ append-nil (expand_file f)
units_of-file i (g ∷ files) f (e, x) (inr h) =
    keep-append (of_index f.index) (expand_file g) (expand_files_to_units files)
    ∙ ap₂ (λ s t. s ++ t)
        (other_units g f.index (inl (omega (arith, index-le (suc i) files f x h))))
        (units_of-file (suc i) files f x h)
