-- ===== src/Web/Manifest/Entries.antt =====
-- web/src/lib/evmfs.ts and cli/src/upload.ts: the manifests of the page and of the client.
use evmfs.Prelude.{
  ℕ, suc, ◌<◌, ◌≡◌, refl, sym, ◌∙◌, ap, inl, inr, true, Option, some, List, [], ◌∷◌, map, length,
  get_elem?, ==_iff, ok, arith,
}
use evmfs.Prelude.Text.{Text}
use evmfs.Prelude.Member.{In}
use evmfs.Cli.Batch.{FileEntry, UploadUnit, expand_file, expand_files_to_units}
use evmfs.Cli.Batch.Files.{IndexedFrom}
use evmfs.Cli.Batch.Expand.{expand_file-nonempty, get_elem?-expand_file}
use evmfs.Cli.Manifest.{
  ManifestEntry, ManifestOutputEntry, ConfirmedChunk, build_entry, output_of, shown_name,
}
use evmfs.Cli.Upload.Send.Receipts.{Recorded}
use evmfs.Cli.Upload.Assemble.{ref_of, file_chunks, assemble}
use evmfs.Cli.Upload.Assemble.Complete.{IsFaithful, IsComplete, file_Recorded}
use evmfs.Cli.Upload.Assemble.Entries.{own_entry, assemble-own_entry}
use evmfs.Web.Manifest.{set_name, entry_for, entries_for, build_manifest_entries}

set_name-shown_name : (name : Text) → set_name (some name) ≡ shown_name true name
unfolding set_name shown_name
set_name-shown_name [] = refl
set_name-shown_name (c ∷ name) = refl

module _ (keccak256 : List ℕ → Text) where
  -- A lone chunk of a complete file is the only one of the file.
  lone_chunk :
      (units : List UploadUnit) (c : ConfirmedChunk)
      → ((i : ℕ) (u : UploadUnit) → get_elem? units i ≡ some u → u.total_chunks ≡ length units)
      → Recorded keccak256 units (c ∷ [])
      → c.total_chunks ≡ 1
  lone_chunk [] c total h = absurd h
  lone_chunk (u ∷ []) c total (r, h) = r.total_chunks ∙ total 0 u refl
  lone_chunk (u ∷ v ∷ units) c total (r, h) = absurd h

  entry_for-output_of :
      (f : FileEntry) (c : ConfirmedChunk) (chunks : List ConfirmedChunk) (name : Option Text)
      → Recorded keccak256 (expand_file f) (c ∷ chunks)
      → entry_for (c ∷ chunks) name ≡ output_of (map ref_of (c ∷ chunks)) name
  unfolding entry_for output_of
  entry_for-output_of f c [] name h =
      let one : c.total_chunks ≡ 1 =
        lone_chunk (expand_file f) c (λ i u e. (get_elem?-expand_file f i u e).total_chunks) h in
      rw ((==_iff c.total_chunks 1).1 one)
  entry_for-output_of f c (d ∷ chunks) name h = refl

  module _ (units : List UploadUnit) (confirmed : List ConfirmedChunk)
      (filenames : ℕ → Option Text) where
    entries_for-cons :
        (i left : ℕ) (f : FileEntry) (chunks : List ConfirmedChunk) (out : List ManifestOutputEntry)
        → file_chunks i confirmed ≡ chunks
        → Recorded keccak256 (expand_file f) chunks
        → filenames i ≡ some f.filename
        → entries_for (suc i) left confirmed filenames ≡ ok out
        → entries_for i (suc left) confirmed filenames
          ≡ ok (
              build_entry true (record { filename = f.filename; chunks = map ref_of chunks }) ∷ out)
    unfolding entries_for build_entry
    entries_for-cons i left f [] out e r named later =
        absurd (none_recorded (expand_file f) (expand_file-nonempty f) r)
      where
        none_recorded : (us : List UploadUnit) → 0 < length us → Recorded keccak256 us [] → ⊥
        none_recorded [] some_unit h = omega arith
        none_recorded (u ∷ us) some_unit h = h
    entries_for-cons i left f (c ∷ chunks) out e r named later =
        rw (e, later, named, entries_for)
          (ap (λ t. ok (t ∷ out))
            (ap (entry_for (c ∷ chunks)) (set_name-shown_name f.filename)
              ∙ entry_for-output_of f c chunks (shown_name true f.filename) r))

    entries_for-own_entry :
        (i : ℕ) (files : List FileEntry)
        → IndexedFrom i files
        → ((f : FileEntry) → In f files → filenames f.index ≡ some f.filename)
        → ((f : FileEntry)
            → In f files
            → Recorded keccak256 (expand_file f) (file_chunks f.index confirmed))
        → entries_for i (length files) confirmed filenames
          ≡ ok (map (build_entry true) (map (own_entry keccak256 units confirmed) files))
    unfolding entries_for
    entries_for-own_entry i [] x named rec = refl
    entries_for-own_entry i (f ∷ files) (e, x) named rec =
        let later =
          entries_for-own_entry (suc i) files x (λ g h. named g (inr h)) (λ g h. rec g (inr h)) in
        entries_for-cons i (length files) f (file_chunks f.index confirmed)
          (map (build_entry true) (map (own_entry keccak256 units confirmed) files))
          (ap (λ k. file_chunks k confirmed) (sym e)) (rec f (inl refl))
          (ap filenames (sym e) ∙ named f (inl refl)) later

  -- Let every unit of the files have been recorded once, and nothing else, and let `filenames` name
  -- every file. Then the page makes the entries that the client's deploy command makes.
  pub build_manifest_entries-build_entry :
      (files : List FileEntry) (confirmed : List ConfirmedChunk) (filenames : ℕ → Option Text)
      → IndexedFrom 0 files
      → IsFaithful keccak256 (expand_files_to_units files) confirmed
      → IsComplete keccak256 (expand_files_to_units files) confirmed
      → ((f : FileEntry) → In f files → filenames f.index ≡ some f.filename)
      → (entries : List ManifestEntry) × (assemble
            (map (λ f. f.filename) files)
            (expand_files_to_units files)
            confirmed
          ≡ ok entries)
        × (build_manifest_entries (length files) confirmed filenames
            ≡ ok (map (build_entry true) entries))
  unfolding build_manifest_entries
  build_manifest_entries-build_entry files confirmed filenames indexed faithful complete named =
      let units = expand_files_to_units files in
      (
        map (own_entry keccak256 units confirmed) files,
        (assemble-own_entry keccak256 files confirmed indexed faithful complete).0,
        entries_for-own_entry units confirmed filenames 0 files indexed named
            (file_Recorded keccak256 files indexed confirmed faithful complete),
      )
