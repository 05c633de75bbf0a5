-- ===== src/Cli/Upload/Assemble.antt =====
-- cli/src/upload.ts: the manifest entries, from the confirmed chunks of every file.
pub mod Groups
pub mod Ascending
pub mod Complete
pub mod Entries
use evmfs.Prelude.{
  ℕ, zero, suc, ◌+◌, Bool, Option, none, some, List, [], ◌∷◌, ◌++◌, map, length, leb, ltb, ◌==◌,
  Result, ok, err, if◌then◌else◌,
}
use evmfs.Prelude.Text.{Text}
use evmfs.Prelude.Sort.{sort}
use evmfs.Cli.Batch.{UploadUnit}
use evmfs.Cli.Manifest.{ChunkRef, ManifestEntry, ConfirmedChunk}
use evmfs.Cli.Upload.Resume.{units_of_file}

abbrev pub Groups : Type 0
Groups = List (ℕ × List ConfirmedChunk)

-- `chunksByFile.get(i) ?? []`
unfoldable pub chunks_at : ℕ → Groups → List ConfirmedChunk
chunks_at i [] = []
chunks_at i ((j, list) ∷ groups) = if j == i then list else chunks_at i groups

-- One round of the grouping loop: `list.push(c)` under the chunk's file.
unfoldable pub add_chunk : ConfirmedChunk → Groups → Groups
add_chunk c [] = (c.file_index, c ∷ []) ∷ []
add_chunk c ((j, list) ∷ groups) =
    if j == c.file_index then (j, list ++ c ∷ []) ∷ groups else (j, list) ∷ add_chunk c groups

unfoldable pub group_from : Groups → List ConfirmedChunk → Groups
group_from groups [] = groups
group_from groups (c ∷ chunks) = group_from (add_chunk c groups) chunks

abbrev pub by_chunk_index : ConfirmedChunk → ConfirmedChunk → Bool
by_chunk_index a b = leb a.chunk_index b.chunk_index

abbrev pub ref_of : ConfirmedChunk → ChunkRef
ref_of c = record { hash = c.hash; block = c.block }

-- The chunks of file `i`, sorted by their index.
unfoldable pub file_chunks : ℕ → List ConfirmedChunk → List ConfirmedChunk
unfolding group_from add_chunk chunks_at
file_chunks i chunks = sort by_chunk_index (chunks_at i (group_from [] chunks))

-- The loop over the files from index `i`: the entries, and how many files miss chunks.
unfoldable pub entries_from :
    ℕ → List Text → List UploadUnit → List ConfirmedChunk → List ManifestEntry × ℕ
unfolding file_chunks
entries_from i [] units chunks = ([], 0)
entries_from i (filename ∷ filenames) units chunks =
    let (entries, missing) = entries_from (suc i) filenames units chunks in
    if length (file_chunks i chunks) == length (units_of_file i units)
    then (
      record { filename = filename; chunks = map ref_of (file_chunks i chunks) } ∷ entries,
      missing,
    )
    else (entries, missing + 1)

-- The entries, or the number of the files whose chunks are missing, with which the run exits.
unfoldable pub assemble :
    List Text → List UploadUnit → List ConfirmedChunk → Result ℕ (List ManifestEntry)
unfolding entries_from
assemble filenames units chunks =
    let (entries, missing) = entries_from 0 filenames units chunks in
    if ltb 0 missing then err missing else ok entries
