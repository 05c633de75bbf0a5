-- ===== src/Cli/Upload/Resume.antt =====
-- cli/src/upload.ts: which units an earlier run has confirmed, and which remain.
pub mod Keys
pub mod Partition
use evmfs.Prelude.{
  ℕ, Bool, true, false, ◌&&◌, Option, none, some, List, [], ◌∷◌, ◌++◌, map, not, any, keep, length,
  ◌==◌, if◌then◌else◌,
}
use evmfs.Prelude.Text.{Text, codes, text_eq}
use evmfs.Prelude.Digits.{decimal}
use evmfs.Cli.Batch.{UploadUnit}
use evmfs.Cli.Manifest.{ConfirmedChunk, UploadState}

unfoldable pub chunk_key : ℕ → ℕ → Text
chunk_key file_index chunk_index = decimal file_index ++ (codes ":" ++ decimal chunk_index)

-- The `Set` of keys, and its `has`.
unfoldable pub confirmed_keys : List ConfirmedChunk → List Text
confirmed_keys [] = []
confirmed_keys (c ∷ chunks) = chunk_key c.file_index c.chunk_index ∷ confirmed_keys chunks

unfoldable pub has : List Text → Text → Bool
has keys key = any (λ k. text_eq k key) keys

abbrev pub units_of_file : ℕ → List UploadUnit → List UploadUnit
units_of_file index units = keep (λ u. u.file_index == index) units

-- Whether the current chunking has the chunk.
unfoldable pub is_valid : List UploadUnit → ConfirmedChunk → Bool
is_valid units c =
    any (λ u. (u.chunk_index == c.chunk_index) && (u.total_chunks == c.total_chunks))
      (units_of_file c.file_index units)

-- The state after stale entries are discarded.
unfoldable pub discard_stale : List UploadUnit → UploadState → UploadState
unfolding is_valid
discard_stale units state =
    let valid = keep (is_valid units) state.chunks in
    if length valid == length state.chunks then state else record state { chunks = valid }

unfoldable pub remaining_units : List UploadUnit → UploadState → List UploadUnit
unfolding confirmed_keys has chunk_key
remaining_units units state =
    keep (λ u. not (has (confirmed_keys state.chunks) (chunk_key u.file_index u.chunk_index))) units
