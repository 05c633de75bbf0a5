-- ===== src/Cli/Upload/Assemble/Entries.antt =====
-- cli/src/upload.ts: the manifest of a complete upload.
use evmfs.Prelude.{
  ℕ, suc, ◌≡◌, refl, sym, ◌∙◌, ap, ap₂, subst, inl, inr, List, [], ◌∷◌, map, length, ==_iff, ok,
}
use evmfs.Prelude.Text.{Text}
use evmfs.Prelude.Member.{In}
use evmfs.Cli.Batch.{FileEntry, UploadUnit, expand_file, expand_files_to_units}
use evmfs.Cli.Batch.Files.{IndexedFrom, units_of-file}
use evmfs.Cli.Manifest.{ChunkRef, ManifestEntry, ConfirmedChunk}
use evmfs.Cli.Upload.Resume.{units_of_file}
use evmfs.Cli.Upload.Send.Receipts.{Recorded}
use evmfs.Cli.Upload.Assemble.{ref_of, file_chunks, entries_from, assemble}
use evmfs.Cli.Upload.Assemble.Complete.{IsFaithful, IsComplete, file_Recorded}

module _ (keccak256 : List ℕ → Text) where
  -- The entry names the file, and its chunks have the hashes of the file's units, in order.
  pub record IsEntryOf (f : FileEntry) (e : ManifestEntry) : Type 0 where
    pub filename : e.filename ≡ f.filename
    pub hashes :
        map (λ (c : ChunkRef). c.hash) e.chunks ≡ map (λ u. keccak256 u.bytes) (expand_file f)

  -- One entry for each file, in order.
  abbrev pub Lists : List FileEntry → List ManifestEntry → Type 0
  Lists [] [] = Unit
  Lists [] (_ ∷ _) = ⊥
  Lists (_ ∷ _) [] = ⊥
  Lists (f ∷ files) (e ∷ entries) = IsEntryOf f e × Lists files entries

  Recorded-hashes :
      (units : List UploadUnit) (chunks : List ConfirmedChunk)
      → Recorded keccak256 units chunks
      → map (λ (c : ChunkRef). c.hash) (map ref_of chunks) ≡ map (λ u. keccak256 u.bytes) units
  Recorded-hashes [] [] h = refl
  Recorded-hashes [] (c ∷ chunks) h = absurd h
  Recorded-hashes (u ∷ units) [] h = absurd h
  Recorded-hashes (u ∷ units) (c ∷ chunks) (r, h) =
      ap₂ (λ x xs. x ∷ xs) r.hash (Recorded-hashes units chunks h)

  Recorded-length :
      (units : List UploadUnit) (chunks : List ConfirmedChunk)
      → Recorded keccak256 units chunks
      → length chunks ≡ length units
  Recorded-length [] [] h = refl
  Recorded-length [] (c ∷ chunks) h = absurd h
  Recorded-length (u ∷ units) [] h = absurd h
  Recorded-length (u ∷ units) (c ∷ chunks) (r, h) = ap suc (Recorded-length units chunks h)

  module _ (units : List UploadUnit) (chunks : List ConfirmedChunk) where
    -- The entry of a file, from its chunks.
    abbrev pub own_entry : FileEntry → ManifestEntry
    own_entry f = record { filename = f.filename; chunks = map ref_of (file_chunks f.index chunks) }

    entries_from-full :
        (i : ℕ) (filename : Text) (filenames : List Text)
        → length (file_chunks i chunks) ≡ length (units_of_file i units)
        → entries_from i (filename ∷ filenames) units chunks ≡ (
          record { filename = filename; chunks = map ref_of (file_chunks i chunks) }
              ∷ (entries_from (suc i) filenames units chunks).0,
          (entries_from (suc i) filenames units chunks).1,
        )
    unfolding entries_from
    entries_from-full i filename filenames full = rw ((==_iff _ _).1 full)

    entries_of_Recorded :
        (i : ℕ) (files : List FileEntry)
        → IndexedFrom i files
        → ((f : FileEntry) → In f files → units_of_file f.index units ≡ expand_file f)
        → ((f : FileEntry)
            → In f files
            → Recorded keccak256 (expand_file f) (file_chunks f.index chunks))
        → (entries_from i (map (λ f. f.filename) files) units chunks ≡ (map own_entry files, 0))
          × Lists files (map own_entry files)
    unfolding entries_from
    entries_of_Recorded i [] x own rec = (refl, tt)
    entries_of_Recorded i (f ∷ files) (e, x) own rec =
        let (same, listed) =
          entries_of_Recorded (suc i) files x (λ g h. own g (inr h)) (λ g h. rec g (inr h)) in
        let r = rec f (inl refl) in
        let full : length (file_chunks i chunks) ≡ length (units_of_file i units) =
          subst (λ k. length (file_chunks k chunks) ≡ length (units_of_file k units)) e
            (Recorded-length (expand_file f) (file_chunks f.index chunks) r
              ∙ sym (ap length (own f (inl refl)))) in
        (
          entries_from-full i f.filename (map (λ f. f.filename) files) full ∙ (λ j. (
            record { filename = f.filename; chunks = map ref_of (file_chunks (sym e j) chunks) }
                ∷ (same j).0,
            (same j).1,
          )),
          (
            record {
              filename = refl;
              hashes = Recorded-hashes (expand_file f) (file_chunks f.index chunks) r;
            },
            listed,
          ),
        )

  module _ (files : List FileEntry) (chunks : List ConfirmedChunk) (indexed : IndexedFrom 0 files)
      (faithful : IsFaithful keccak256 (expand_files_to_units files) chunks)
      (complete : IsComplete keccak256 (expand_files_to_units files) chunks) where
    pub assemble-own_entry :
        (assemble (map (λ f. f.filename) files) (expand_files_to_units files) chunks
          ≡ ok (map (own_entry (expand_files_to_units files) chunks) files))
        × Lists files (map (own_entry (expand_files_to_units files) chunks) files)
    unfolding assemble
    assemble-own_entry =
        let (same, listed) =
          entries_of_Recorded (expand_files_to_units files) chunks 0 files indexed
            (λ f h. units_of-file 0 files f indexed h)
            (file_Recorded keccak256 files indexed chunks faithful complete) in
        (rw (same, assemble), listed)

  -- If every unit of the files has been recorded once, and nothing else, then the manifest has one
  -- entry for each file, in order, whose chunks have the hashes of the file's chunks, in order.
  pub assemble-Lists :
      (files : List FileEntry) (chunks : List ConfirmedChunk)
      → IndexedFrom 0 files
      → IsFaithful keccak256 (expand_files_to_units files) chunks
      → IsComplete keccak256 (expand_files_to_units files) chunks
      → (entries : List ManifestEntry) × (assemble
            (map (λ f. f.filename) files)
            (expand_files_to_units files)
            chunks
          ≡ ok entries)
        × Lists files entries
  assemble-Lists files chunks indexed faithful complete =
      let (made, listed) = assemble-own_entry files chunks indexed faithful complete in
      (map (own_entry (expand_files_to_units files) chunks) files, made, listed)
