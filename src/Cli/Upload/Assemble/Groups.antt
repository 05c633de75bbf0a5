-- ===== src/Cli/Upload/Assemble/Groups.antt =====
-- cli/src/upload.ts: the grouping of the chunks by file.
use evmfs.Prelude.{
  ℕ, ◌≡◌, sym, ◌∙◌, ap, inl, inr, Bool, List, [], ◌∷◌, ◌++◌, append_assoc, append-nil, keep, ◌==◌,
  Bool-cases, if◌then◌else◌, arith,
}
use evmfs.Cli.Manifest.{ConfirmedChunk}
use evmfs.Cli.Upload.Assemble.{Groups, chunks_at, add_chunk, group_from}

abbrev pub in_file : ℕ → ConfirmedChunk → Bool
in_file i c = c.file_index == i

chunks_at-add_chunk :
    (i : ℕ) (c : ConfirmedChunk) (groups : Groups)
    → chunks_at i (add_chunk c groups)
      ≡ (if in_file i c then chunks_at i groups ++ c ∷ [] else chunks_at i groups)
unfolding chunks_at add_chunk
chunks_at-add_chunk i c [] = ground arith
chunks_at-add_chunk i c ((j, list) ∷ groups) = ground (arith, chunks_at-add_chunk i c groups)

chunks_at-group_from :
    (i : ℕ) (groups : Groups) (chunks : List ConfirmedChunk)
    → chunks_at i (group_from groups chunks) ≡ chunks_at i groups ++ keep (in_file i) chunks
unfolding group_from
chunks_at-group_from i groups [] = sym (append-nil _)
chunks_at-group_from i groups (c ∷ chunks) =
    chunks_at-group_from i (add_chunk c groups) chunks
    ∙ ap (λ t. t ++ keep (in_file i) chunks) (chunks_at-add_chunk i c groups)
    ∙ elim (Bool-cases (in_file i c)) [
      | inl e ↦ rw e (append_assoc (chunks_at i groups) (c ∷ []) (keep (in_file i) chunks))
      | inr e ↦ rw e
    ]

-- What the grouping loop holds for a file are the file's chunks, in the order of the state.
pub chunks_at-group :
    (i : ℕ) (chunks : List ConfirmedChunk)
    → chunks_at i (group_from [] chunks) ≡ keep (in_file i) chunks
unfolding chunks_at
chunks_at-group i chunks = chunks_at-group_from i [] chunks
