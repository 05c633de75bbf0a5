-- ===== src/Cli/Upload/Assemble/Complete.antt =====
-- cli/src/upload.ts: the chunks of one file, in progress that records every unit.
use evmfs.Prelude.{
  ℕ, ◌≡◌, ◌≢◌, ◌↔◌, sym, ◌∙◌, subst, inl, inr, List, [], ◌∷◌, keep, ◌==◌, ==_iff, Bool-cases, arith,
}
use evmfs.Prelude.Text.{Text}
use evmfs.Prelude.Member.{In, In-All, All-In, In-keep}
use evmfs.Prelude.SortKeys.{HasUniqueKeys, IsAscending, In-sort, sort-IsAscending}
use evmfs.Cli.Batch.{FileEntry, UploadUnit, expand_file, expand_files_to_units}
use evmfs.Cli.Batch.Files.{IndexedFrom, expand_file-Consecutive, units_of-file}
use evmfs.Cli.Manifest.{ConfirmedChunk}
use evmfs.Cli.Upload.Resume.Partition.{IsFor, HasUniquePlaces}
use evmfs.Cli.Upload.Send.Receipts.{Recorded}
use evmfs.Cli.Upload.Assemble.{chunks_at, group_from, file_chunks}
use evmfs.Cli.Upload.Assemble.Ascending.{chunk_place, Records, Covers, Recorded-of_IsAscending}
use evmfs.Cli.Upload.Assemble.Groups.{in_file, chunks_at-group}

module _ (keccak256 : List ℕ → Text) where
  -- Every chunk records one of the units, and no unit is recorded twice.
  pub record IsFaithful (units : List UploadUnit) (chunks : List ConfirmedChunk) : Type 0 where
    pub recorded : Records keccak256 units chunks
    pub unique : HasUniquePlaces chunks

  -- Every unit has a chunk.
  abbrev pub IsComplete : List UploadUnit → List ConfirmedChunk → Type 0
  IsComplete units chunks =
      (u : UploadUnit) → In u units → (c : ConfirmedChunk) × In c chunks × IsFor u c

  -- The chunks of one file.
  unique_in_file :
      (i : ℕ) (chunks : List ConfirmedChunk)
      → HasUniquePlaces chunks
      → HasUniqueKeys chunk_place (keep (in_file i) chunks)
  unique_in_file i [] u = tt
  unique_in_file i (c ∷ chunks) (new, u) = elim (Bool-cases (in_file i c)) [
    | inr e ↦ rw e (unique_in_file i chunks u)
    | inl e ↦ rw e (
      All-In (λ d. d.chunk_index ≢ c.chunk_index) (keep (in_file i) chunks)
          (λ d j same.
            let (k, f) = (In-keep (in_file i) d chunks).0 j in
            In-All _ chunks d new k (ground arith, same)),
      unique_in_file i chunks u,
    )
  ]

  module _ (files : List FileEntry) (indexed : IndexedFrom 0 files) (chunks : List ConfirmedChunk)
      (faithful : IsFaithful (expand_files_to_units files) chunks)
      (complete : IsComplete (expand_files_to_units files) chunks) where
    In-file_chunks :
        (i : ℕ) (c : ConfirmedChunk)
        → In c (file_chunks i chunks) ↔ (In c chunks × (c.file_index ≡ i))
    unfolding file_chunks
    In-file_chunks i c =
        let (down, up) = In-sort chunk_place c (chunks_at i (group_from [] chunks)) in
        let (to, from) = In-keep (in_file i) c chunks in
        let same = chunks_at-group i chunks in
        (
          λ h. let (j, e) = to (subst (In c) same (down h)) in (j, (==_iff _ _).0 e),
          λ h. up (subst (In c) (sym same) (from (h.0, (==_iff _ _).1 h.1))),
        )

    file_chunks-IsAscending : (i : ℕ) → IsAscending chunk_place (file_chunks i chunks)
    unfolding file_chunks
    file_chunks-IsAscending i =
        sort-IsAscending chunk_place (chunks_at i (group_from [] chunks))
          (rw (chunks_at-group i chunks) (unique_in_file i chunks faithful.unique))

    In-expand_file :
        (f : FileEntry) (u : UploadUnit)
        → In f files
        → In u (expand_file f) ↔ (In u (expand_files_to_units files) × (u.file_index ≡ f.index))
    In-expand_file f u h =
        let own = units_of-file 0 files f indexed h in
        let (to, from) = In-keep (λ v. v.file_index == f.index) u (expand_files_to_units files) in
        (
          λ i. let (j, e) = to (subst (In u) (sym own) i) in (j, (==_iff _ _).0 e),
          λ i. subst (In u) own (from (i.0, (==_iff _ _).1 i.1)),
        )

    file_Records :
        (f : FileEntry)
        → In f files
        → Records keccak256 (expand_file f) (file_chunks f.index chunks)
    file_Records f h c i =
        let (j, e) = (In-file_chunks f.index c).0 i in
        let (u, k, rec) = faithful.recorded c j in
        (u, (In-expand_file f u h).1 (k, sym rec.file_index ∙ e), rec)

    file_Covers :
        (f : FileEntry) → In f files → Covers keccak256 (expand_file f) (file_chunks f.index chunks)
    file_Covers f h u i =
        let (j, e) = (In-expand_file f u h).0 i in
        let (c, k, for_u) = complete u j in
        (c, (In-file_chunks f.index c).1 (k, for_u.file_index ∙ e), for_u.chunk_index)

    pub file_Recorded :
        (f : FileEntry)
        → In f files
        → Recorded keccak256 (expand_file f) (file_chunks f.index chunks)
    file_Recorded f h =
        Recorded-of_IsAscending keccak256 0 (expand_file f) (file_chunks f.index chunks)
          (expand_file-Consecutive f) (file_chunks-IsAscending f.index) (file_Records f h)
          (file_Covers f h)
