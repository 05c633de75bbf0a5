-- ===== src/Cli/Batch/Expand.antt =====
-- cli/src/batch.ts, `expandFilesToUnits`: the units of one file.
use Prim.Native.Nat.{min}
use evmfs.Prelude.{
  ℕ, zero, suc, ◌+◌, ◌-◌, ◌*◌, ◌≤◌, ◌<◌, ◌≡◌, refl, sym, ◌∙◌, ap, inl, inr, List, [], ◌∷◌, ◌++◌,
  map, some, append-nil, concat, drop-drop, get_elem?, length, length-take, length-drop, take, drop,
  take_all, take-append-drop, arith, Bool-cases, leb,
}
use evmfs.Cli.Batch.{
  FileEntry, UploadUnit, max_batch_bytes, subarray, chunk_count, chunk, chunks_from, whole_file,
  expand_file,
}

abbrev pub joined : List UploadUnit → List ℕ
joined units = concat (map (λ u. u.bytes) units)

eq-nil_of_length {ℓ} : {A : Type ℓ} (xs : List A) → length xs ≤ 0 → xs ≡ []
eq-nil_of_length [] h = refl
eq-nil_of_length (x ∷ xs) h = absurd (omega arith)

-- The last chunk ends with the file; a shorter `end` cuts off nothing else.
subarray-eq-take :
    (xs : List ℕ) (off n : ℕ) → subarray xs off (min (off + n) (length xs)) ≡ take n (drop off xs)
subarray-eq-take xs off n = elim (Bool-cases (leb (off + n) (length xs))) [
  | inl h ↦ let e : min (off + n) (length xs) - off ≡ n = ground arith in rw e
  | inr h ↦
      let short : length (drop off xs) ≤ n = ground (arith, length-drop off xs) in
      take_all (min (off + n) (length xs) - off) (drop off xs) (ground (arith, length-drop off xs))
      ∙ sym (take_all n (drop off xs) short)
]

joined-chunks_from :
    (f : FileEntry) (total i left : ℕ)
    → length f.compressed ≤ (i + left) * max_batch_bytes
    → joined (chunks_from f total i left) ≡ drop (i * max_batch_bytes) f.compressed
unfolding chunks_from chunk
joined-chunks_from f total i zero h = sym (
    eq-nil_of_length (drop (i * max_batch_bytes) f.compressed)
      (omega (arith, length-drop (i * max_batch_bytes) f.compressed)))
joined-chunks_from f total i (suc left) h =
    let off = i * max_batch_bytes in
    let next : suc i * max_batch_bytes ≡ off + max_batch_bytes = omega arith in
    ap (λ t. t ++ joined (chunks_from f total (suc i) left))
      (subarray-eq-take f.compressed off max_batch_bytes)
    ∙ ap (λ t. take max_batch_bytes (drop off f.compressed) ++ t)
        (joined-chunks_from f total (suc i) left (omega arith)
          ∙ ap (λ k. drop k f.compressed) next
          ∙ sym (drop-drop off max_batch_bytes f.compressed))
    ∙ take-append-drop max_batch_bytes (drop off f.compressed)

-- The data of a file's units, joined in order, are the compressed file.
pub joined-expand_file : (f : FileEntry) → joined (expand_file f) ≡ f.compressed
unfolding expand_file whole_file
joined-expand_file f = elim (Bool-cases (leb (length f.compressed) max_batch_bytes)) [
  | inl small ↦ rw small (append-nil f.compressed)
  | inr large ↦ rw large (
      joined-chunks_from f (chunk_count (length f.compressed)) 0 (chunk_count (length f.compressed))
        (omega arith))
]

-- What the unit at place `i` of a file with `total` units is.
pub record IsUnit (f : FileEntry) (total i : ℕ) (u : UploadUnit) : Type 0 where
  pub file_index : u.file_index ≡ f.index
  pub chunk_index : u.chunk_index ≡ i
  pub total_chunks : u.total_chunks ≡ total
  pub bound : length u.bytes ≤ max_batch_bytes

chunk-IsUnit : (f : FileEntry) (total i : ℕ) → IsUnit f total i (chunk f total i)
unfolding chunk
chunk-IsUnit f total i = record {
  file_index = refl;
  chunk_index = refl;
  total_chunks = refl;
  bound =
      rw (subarray-eq-take f.compressed (i * max_batch_bytes) max_batch_bytes)
        (omega (arith, length-take max_batch_bytes (drop (i * max_batch_bytes) f.compressed)));
}

get_elem?-chunks_from :
    (f : FileEntry) (total i left j : ℕ) (u : UploadUnit)
    → get_elem? (chunks_from f total i left) j ≡ some u
    → IsUnit f total (i + j) u
unfolding chunks_from
get_elem?-chunks_from f total i zero j u h = cc
get_elem?-chunks_from f total i (suc left) zero u h =
    let e : i + zero ≡ i = omega arith in
    let same : chunk f total i ≡ u = cc in rw (e, ← same) (chunk-IsUnit f total i)
get_elem?-chunks_from f total i (suc left) (suc j) u h =
    let e : i + suc j ≡ suc i + j = omega arith in
    rw e (get_elem?-chunks_from f total (suc i) left j u h)

pub length-chunks_from :
    (f : FileEntry) (total i left : ℕ) → length (chunks_from f total i left) ≡ left
unfolding chunks_from
length-chunks_from f total i zero = refl
length-chunks_from f total i (suc left) = ap suc (length-chunks_from f total (suc i) left)

whole_file-IsUnit :
    (f : FileEntry) (i : ℕ) (u : UploadUnit)
    → length f.compressed ≤ max_batch_bytes
    → get_elem? (whole_file f ∷ []) i ≡ some u
    → IsUnit f 1 i u
unfolding whole_file
whole_file-IsUnit f zero u fits h =
    let same : whole_file f ≡ u = cc in
    rw (← same)
      (record { file_index = refl; chunk_index = refl; total_chunks = refl; bound = fits })
whole_file-IsUnit f (suc i) u fits h = cc

-- The unit at place `i` of a file carries the file's index, its own place and the number of the
-- file's units, and holds at most 100,000 bytes.
pub get_elem?-expand_file :
    (f : FileEntry) (i : ℕ) (u : UploadUnit)
    → get_elem? (expand_file f) i ≡ some u
    → IsUnit f (length (expand_file f)) i u
unfolding expand_file
get_elem?-expand_file f i u h = elim (Bool-cases (leb (length f.compressed) max_batch_bytes)) [
  | inl small ↦ rw small (whole_file-IsUnit f i u (ground arith) (rw small at h))
  | inr large ↦
      let total = chunk_count (length f.compressed) in
      rw (large, length-chunks_from f total 0 total)
        (let e : 0 + i ≡ i = omega arith in
          rw e at (get_elem?-chunks_from f total 0 total i u (rw large at h)))
]

-- Every file has a unit, an empty one too.
pub expand_file-nonempty : (f : FileEntry) → 0 < length (expand_file f)
unfolding expand_file
expand_file-nonempty f = elim (Bool-cases (leb (length f.compressed) max_batch_bytes)) [
  | inl small ↦ rw small (omega arith)
  | inr large ↦
      let total = chunk_count (length f.compressed) in
      rw large (ground (arith, length-chunks_from f total 0 total))
]
