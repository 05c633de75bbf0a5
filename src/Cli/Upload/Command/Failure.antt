-- ===== src/Cli/Upload/Command/Failure.antt =====
-- cli/src/upload.ts: the progress after a run that ends in whatever way.
use evmfs.Prelude.{
  ℕ, ◌≡◌, ◌≢◌, refl, sym, ◌∙◌, ap, subst, inl, inr, Bool, Option, some, List, [], ◌∷◌, ◌++◌, map,
  append-nil, length, Result, ok, err, Bool-cases,
}
use evmfs.Prelude.Text.{codes, text_eq, to_lower, truthy}
use evmfs.Prelude.Member.{In, In-append_left}
use evmfs.Prelude.ParseInt.{parse_int}
use evmfs.Contract.{store_manifest}
use evmfs.Cli.Batch.{FileEntry, Batch, expand_files_to_units}
use evmfs.Cli.Batch.Order.{units_of, units_of-pack_batches, units_of-append}
use evmfs.Cli.Batch.Files.{IndexedFrom}
use evmfs.Cli.Batch.Places.{HasUniqueUnits, HasUniqueUnits-left, expand_files_to_units_unique}
use evmfs.Cli.Manifest.{
  ManifestEntry, ConfirmedChunk, UploadState, SavedFile, build_manifest, save_upload_state,
}
use evmfs.Cli.Upload.Resume.{discard_stale, remaining_units}
use evmfs.Cli.Upload.Send.{World, send_batches}
use evmfs.Cli.Upload.Send.Receipts.{IsHonest, Distinct, Recorded}
use evmfs.Cli.Upload.Send.Distinct.{Distinct-batches, Distinct-remaining, unique-remaining}
use evmfs.Cli.Upload.Send.Progress.{Ends, Reply-cases, send_batches-Ends}
use evmfs.Cli.Upload.Assemble.{assemble}
use evmfs.Cli.Upload.Assemble.Complete.{IsFaithful}
use evmfs.Cli.Upload.Command.{
  UploadOptions, Env, Exit, batch_error, missing_chunks, already_complete, cancelled, Outcome, stop,
  limit_of, send_manifest, upload_manifest, upload_batches, upload_from, is_done,
}
use evmfs.Cli.Upload.Command.Faithful.{IsFaithful-added, discard_stale-IsFaithful}
use evmfs.Cli.Upload.Command.Run.{batches_from}

module _ (env : Env) (options : UploadOptions) (include_filenames : Bool)
    (files : List FileEntry) where
  -- The chunks of the state are those of `w`, and the run did not end in a batch.
  record Passes (w : World) (o : Outcome) : Type 0 where
    chunks : o.world.state.chunks ≡ w.state.chunks
    exit : o.exit ≢ batch_error

  send_manifest-Passes :
      (i : ℕ) (entries : List ManifestEntry) (w : World)
      → Passes w (send_manifest env options include_filenames i entries w)
  unfolding send_manifest
  send_manifest-Passes i entries w =
      let call = store_manifest (build_manifest env.gzip_text entries include_filenames).1 in
      elim (Reply-cases (env.submit i call)) [
        | inl e ↦ rw (e, send_manifest) (record { chunks = refl; exit = λ h. cc })
        | inr (block, logs, e) ↦ rw (e, send_manifest) (record { chunks = refl; exit = λ h. cc })
      ]

  upload_manifest-Passes :
      (i : ℕ) (w : World) → Passes w (upload_manifest env options include_filenames i files w)
  unfolding upload_manifest
  upload_manifest-Passes i w = elim (Bool-cases (truthy w.state.manifest_hash)) [
    | inl e ↦ rw (e, upload_manifest) (record { chunks = refl; exit = λ h. cc })
    | inr e ↦
        rw (e, upload_manifest)
          (assembled
            (assemble (map (λ f. f.filename) files) (expand_files_to_units files) w.state.chunks)
            refl)
  ]
    where
      assembled :
          (r : Result ℕ (List ManifestEntry))
          → assemble (map (λ f. f.filename) files) (expand_files_to_units files) w.state.chunks ≡ r
          → Passes w
              (elim (assemble
                (map (λ f. f.filename) files)
                (expand_files_to_units files)
                w.state.chunks) [
                  | err missing ↦ stop (missing_chunks missing) w
                  | ok entries ↦ send_manifest env options include_filenames i entries w
                ])
      assembled (err missing) e = rw e (record { chunks = refl; exit = λ h. cc })
      assembled (ok entries) e = rw e (send_manifest-Passes i entries w)

  -- The progress of the run is faithful; if a batch failed, it is in the file and has no manifest that
  -- it did not have before.
  pub record KeepsProgress (state : UploadState) (o : Outcome) : Type 0 where
    pub faithful : IsFaithful env.keccak256 (expand_files_to_units files) o.world.state.chunks
    pub saved : o.exit ≡ batch_error → o.world.saved ≡ some (save_upload_state o.world.state)
    pub hash : o.exit ≡ batch_error → o.world.state.manifest_hash ≡ state.manifest_hash

  -- What a part of the batches added keeps the progress faithful.
  part-IsFaithful :
      (state : UploadState) (batches part rest : List Batch) (added : List ConfirmedChunk)
      → IndexedFrom 0 files
      → IsFaithful env.keccak256 (expand_files_to_units files) state.chunks
      → units_of batches ≡ remaining_units (expand_files_to_units files) state
      → batches ≡ part ++ rest
      → Recorded env.keccak256 (units_of part) added
      → IsFaithful env.keccak256 (expand_files_to_units files) (state.chunks ++ added)
  part-IsFaithful state batches part rest added indexed faithful all_units split rec =
      let units = expand_files_to_units files in
      let parts : remaining_units units state ≡ units_of part ++ units_of rest =
        sym all_units ∙ ap units_of split ∙ units_of-append part rest in
      IsFaithful-added env.keccak256 units state faithful (units_of part) added
        (λ u i. subst (In u) (sym parts) (In-append_left u (units_of part) (units_of rest) i))
        (HasUniqueUnits-left (units_of part) (units_of rest) (
          subst HasUniqueUnits parts
            (unique-remaining units state (expand_files_to_units_unique 0 files indexed))))
        rec

  module _ (honest : IsHonest env.keccak256 env.submit) (indexed : IndexedFrom 0 files)
      (distinct : Distinct env.keccak256 (expand_files_to_units files)) where
    run_KeepsProgress :
        (state : UploadState) (batches : List Batch) (saved : Option SavedFile)
        (r : Result World World)
        → IsFaithful env.keccak256 (expand_files_to_units files) state.chunks
        → units_of batches ≡ remaining_units (expand_files_to_units files) state
        → Ends env.keccak256 batches (record { state = state; saved = saved; sent = [] }) r
        → KeepsProgress state (elim r [
          | err w' ↦ stop batch_error w'
          | ok w' ↦ upload_manifest env options include_filenames (length batches) files w'
        ])
    run_KeepsProgress state batches saved (ok w') faithful all_units p =
        let passes = upload_manifest-Passes (length batches) w' in
        let units = expand_files_to_units files in
        let chunks = passes.chunks ∙ (λ i. (p.state i).chunks) in
        record {
          faithful = subst (IsFaithful env.keccak256 units) (sym chunks) (
              part-IsFaithful state batches batches [] p.added indexed faithful all_units
                (sym (append-nil batches)) p.recorded);
          saved = λ h. absurd (passes.exit h);
          hash = λ h. absurd (passes.exit h);
        }
    run_KeepsProgress state batches saved (err w') faithful all_units
          (part, b, rest, split, w1, p, stopped) =
        let units = expand_files_to_units files in
        let left : w'.state ≡ w1.state = stopped.state in
        let whole = left ∙ p.state in
        record {
          faithful = subst (IsFaithful env.keccak256 units) (sym (λ i. (whole i).chunks)) (
              part-IsFaithful state batches part (b ∷ rest) p.added indexed faithful all_units split
                p.recorded);
          saved = λ h. stopped.saved ∙ ap (λ s. some (save_upload_state s)) (sym left);
          hash = λ h i. (whole i).manifest_hash;
        }

    upload_batches-KeepsProgress :
        (state : UploadState) (batches : List Batch) (saved : Option SavedFile)
        → IsFaithful env.keccak256 (expand_files_to_units files) state.chunks
        → units_of batches ≡ remaining_units (expand_files_to_units files) state
        → KeepsProgress state (
            upload_batches env options include_filenames files batches
              (record { state = state; saved = saved; sent = [] }))
    unfolding upload_batches
    upload_batches-KeepsProgress state batches saved faithful all_units =
        let units = expand_files_to_units files in
        let w : World = record { state = state; saved = saved; sent = [] } in
        run_KeepsProgress state batches saved (send_batches env.keccak256 env.submit 0 batches w)
          faithful all_units
          (send_batches-Ends env.keccak256 env.submit honest 0 batches w (
            Distinct-batches env.keccak256 batches
              (rw all_units (Distinct-remaining env.keccak256 units state distinct))))

    stop-KeepsProgress :
        (state : UploadState) (saved : Option SavedFile) (exit : Exit)
        → IsFaithful env.keccak256 (expand_files_to_units files) state.chunks
        → exit ≢ batch_error
        → KeepsProgress state (stop exit (record { state = state; saved = saved; sent = [] }))
    stop-KeepsProgress state saved exit faithful other = record {
      faithful = faithful;
      saved = λ h. absurd (other h);
      hash = λ h. absurd (other h);
    }

    -- Let the contract log what it stores and no two units have one hash. However the prompt is
    -- answered and whichever transactions fail, a run from faithful progress ends with faithful
    -- progress; if it ended in a batch, its file holds that progress, and the manifest's hash is as
    -- it was.
    pub upload_from-KeepsProgress :
        (saved : Option SavedFile) (loaded : UploadState)
        → IsFaithful env.keccak256 (expand_files_to_units files) loaded.chunks
        → KeepsProgress
            (discard_stale (expand_files_to_units files) loaded)
            (upload_from env options include_filenames files saved loaded)
    unfolding upload_from
    upload_from-KeepsProgress saved loaded faithful =
        let units = expand_files_to_units files in
        let state = discard_stale units loaded in
        let remaining = remaining_units units state in
        let kept = discard_stale-IsFaithful env.keccak256 units loaded faithful in
        elim (Bool-cases (is_done env options include_filenames remaining state)) [
          | inl e ↦ rw e (stop-KeepsProgress state saved already_complete kept (λ h. cc))
          | inr e ↦ rw e (elim (Bool-cases (text_eq (to_lower env.answer) (codes "y"))) [
            | inr n ↦ rw n (stop-KeepsProgress state saved cancelled kept (λ h. cc))
            | inl y ↦ rw y (
                upload_batches-KeepsProgress state
                  (batches_from env options include_filenames files loaded) saved kept
                  (units_of-pack_batches remaining (limit_of (parse_int 10 options.gas_limit))))
          ])
        ]
