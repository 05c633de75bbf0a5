-- ===== src/Cli/Upload/Command/Run.antt =====
-- cli/src/upload.ts: a run from faithful progress, over an honest contract, to its manifest.
use evmfs.Prelude.{
  ℕ, ◌≡◌, ◌≢◌, refl, sym, ◌∙◌, ap, subst, inl, inr, Bool, true, false, Option, none, some, List, [],
  ◌∷◌, ◌++◌, map, length,
}
use evmfs.Prelude.Text.{codes, text_eq, to_lower}
use evmfs.Prelude.ParseInt.{parse_int}
use evmfs.Contract.{Call, store_manifest, events}
use evmfs.Cli.Batch.{FileEntry, UploadUnit, Batch, expand_files_to_units, pack_batches}
use evmfs.Cli.Batch.Order.{units_of, units_of-pack_batches}
use evmfs.Cli.Batch.Files.{IndexedFrom}
use evmfs.Cli.Batch.Places.{expand_files_to_units_unique}
use evmfs.Cli.Manifest.{
  ManifestEntry, UploadState, SavedFile, build_manifest, local_manifest, save_upload_state,
}
use evmfs.Cli.Upload.Resume.{discard_stale, remaining_units}
use evmfs.Cli.Upload.Resume.Partition.{manifest_hash-discard_stale}
use evmfs.Cli.Upload.Send.{failed, World, batch_call}
use evmfs.Cli.Upload.Send.Receipts.{IsHonest, Distinct, Recorded}
use evmfs.Cli.Upload.Send.Distinct.{Distinct-batches, Distinct-remaining, unique-remaining}
use evmfs.Cli.Upload.Send.Progress.{Progress, Ends, Reply-cases, send_batches-Ends, send_batches-ok}
use evmfs.Cli.Upload.Assemble.Complete.{IsFaithful, IsComplete}
use evmfs.Cli.Upload.Assemble.Entries.{Lists, assemble-Lists}
use evmfs.Cli.Upload.Command.{
  UploadOptions, Env, done, Outcome, limit_of, manifest_hash_from, send_manifest, upload_manifest,
  upload_batches, upload_from, is_done,
}
use evmfs.Cli.Upload.Command.Faithful.{IsFaithful-added, IsComplete-added, discard_stale-IsFaithful}

module _ (env : Env) (options : UploadOptions) (include_filenames : Bool)
    (files : List FileEntry) where
  abbrev manifest_bytes : List ManifestEntry → List ℕ
  manifest_bytes entries = (build_manifest env.gzip_text entries include_filenames).1

  -- The run has sent the batches and then the manifest, which lists every file.
  pub record IsCompleted (batches : List Batch) (o : Outcome) : Type 0 where
    pub exit : o.exit ≡ done
    pub entries : List ManifestEntry
    pub listed : Lists env.keccak256 files entries
    pub sent :
        o.world.sent
        ≡ map (λ b. batch_call b.units) batches ++ store_manifest (manifest_bytes entries) ∷ []
    pub hash : o.world.state.manifest_hash ≡ some (env.keccak256 (manifest_bytes entries))
    pub saved : o.world.saved ≡ some (save_upload_state o.world.state)
    pub local : o.local ≡ some (local_manifest entries)

  -- The batches of a run from a loaded state.
  abbrev pub batches_from : UploadState → List Batch
  batches_from loaded =
      let units = expand_files_to_units files in
      pack_batches (remaining_units units (discard_stale units loaded))
        (limit_of (parse_int 10 options.gas_limit))

  module _ (honest : IsHonest env.keccak256 env.submit)
      (answered : (i : ℕ) (call : Call) → env.submit i call ≢ failed) where
    send_manifest-IsCompleted :
        (i : ℕ) (entries : List ManifestEntry) (batches : List Batch) (w : World)
        → Lists env.keccak256 files entries
        → w.sent ≡ map (λ b. batch_call b.units) batches
        → IsCompleted batches (send_manifest env options include_filenames i entries w)
    unfolding send_manifest manifest_hash_from events
    send_manifest-IsCompleted i entries batches w listed sent =
        let call = store_manifest (manifest_bytes entries) in
        elim (Reply-cases (env.submit i call)) [
          | inl e ↦ absurd (answered i call e)
          | inr (block, logs, e) ↦
              let logged = honest.logged i call block logs e in
              rw (e, send_manifest)
                (record {
                  exit = refl;
                  entries = entries;
                  listed = listed;
                  sent = ap (λ t. t ++ call ∷ []) sent;
                  hash = ap (manifest_hash_from w.state.manifest_hash) logged;
                  saved = refl;
                  local = refl;
                })
        ]

    upload_manifest-IsCompleted :
        (i : ℕ) (batches : List Batch) (w : World)
        → IndexedFrom 0 files
        → IsFaithful env.keccak256 (expand_files_to_units files) w.state.chunks
        → IsComplete env.keccak256 (expand_files_to_units files) w.state.chunks
        → w.state.manifest_hash ≡ none
        → w.sent ≡ map (λ b. batch_call b.units) batches
        → IsCompleted batches (upload_manifest env options include_filenames i files w)
    unfolding upload_manifest
    upload_manifest-IsCompleted i batches w indexed faithful complete no_hash sent =
        let (entries, made, listed) =
          assemble-Lists env.keccak256 files w.state.chunks indexed faithful complete in
        rw (no_hash, upload_manifest)
          (rw (made, upload_manifest) (send_manifest-IsCompleted i entries batches w listed sent))

    upload_batches-IsCompleted :
        (state : UploadState) (batches : List Batch) (saved : Option SavedFile)
        → IndexedFrom 0 files
        → IsFaithful env.keccak256 (expand_files_to_units files) state.chunks
        → state.manifest_hash ≡ none
        → Distinct env.keccak256 (expand_files_to_units files)
        → units_of batches ≡ remaining_units (expand_files_to_units files) state
        → IsCompleted batches (
            upload_batches env options include_filenames files batches
              (record { state = state; saved = saved; sent = [] }))
    unfolding upload_batches
    upload_batches-IsCompleted state batches saved indexed faithful no_hash distinct all_units =
        let units = expand_files_to_units files in
        let w : World = record { state = state; saved = saved; sent = [] } in
        let (w', sent_all) = send_batches-ok env.keccak256 env.submit 0 batches w answered in
        let apart : Distinct env.keccak256 (units_of batches) =
          rw all_units (Distinct-remaining env.keccak256 units state distinct) in
        let progress : Progress env.keccak256 batches w w' =
          subst (Ends env.keccak256 batches w) sent_all (
            send_batches-Ends env.keccak256 env.submit honest 0 batches w
              (Distinct-batches env.keccak256 batches apart)) in
        let rec : Recorded env.keccak256 (remaining_units units state) progress.added =
          rw (← all_units) progress.recorded in
        let chunks : state.chunks ++ progress.added ≡ w'.state.chunks =
          λ i. (sym progress.state i).chunks in
        rw (sent_all, upload_batches)
          (upload_manifest-IsCompleted (length batches) batches w' indexed
            (subst (IsFaithful env.keccak256 units) chunks (
              IsFaithful-added env.keccak256 units state faithful (remaining_units units state)
                progress.added (λ u i. i)
                (unique-remaining units state (expand_files_to_units_unique 0 files indexed)) rec))
            (subst (IsComplete env.keccak256 units) chunks
              (IsComplete-added env.keccak256 units state faithful progress.added rec))
            ((λ i. (progress.state i).manifest_hash) ∙ no_hash) progress.sent)

    is_done_no_hash :
        (units : List UploadUnit) (state : UploadState)
        → state.manifest_hash ≡ none
        → is_done env options include_filenames units state ≡ false
    unfolding is_done
    is_done_no_hash [] state e = rw e
    is_done_no_hash (u ∷ units) state e = refl

    -- Let the contract log what it stores, every transaction get a receipt and no two units have one
    -- hash. A run that is answered `y`, from progress that records units of these files, none twice,
    -- and has no manifest, sends the batches of what remains and then the manifest, which lists every
    -- file with the hashes of its chunks in order; it saves that manifest's hash.
    pub upload_from-IsCompleted :
        (saved : Option SavedFile) (loaded : UploadState)
        → IndexedFrom 0 files
        → IsFaithful env.keccak256 (expand_files_to_units files) loaded.chunks
        → loaded.manifest_hash ≡ none
        → Distinct env.keccak256 (expand_files_to_units files)
        → text_eq (to_lower env.answer) (codes "y") ≡ true
        → IsCompleted
            (batches_from loaded)
            (upload_from env options include_filenames files saved loaded)
    unfolding upload_from
    upload_from-IsCompleted saved loaded indexed faithful no_hash distinct yes_answer =
        let units = expand_files_to_units files in
        let state = discard_stale units loaded in
        let hash = manifest_hash-discard_stale units loaded ∙ no_hash in
        rw (is_done_no_hash (remaining_units units state) state hash, yes_answer)
          (upload_batches-IsCompleted state (batches_from loaded) saved indexed
            (discard_stale-IsFaithful env.keccak256 units loaded faithful) hash distinct
            (units_of-pack_batches (remaining_units units state)
              (limit_of (parse_int 10 options.gas_limit))))
