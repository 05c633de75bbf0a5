-- ===== src/Web/App/Ends.antt =====
-- `startUpload` of web/src/App.tsx over `uploadFiles` of web/src/lib/evmfs.ts: the state in which an
-- upload leaves the page.
use evmfs.Prelude.{
  ℕ, ◌+◌, ◌≡◌, refl, sym, ◌∙◌, ap, subst, inl, inr, Option, none, some, List, [], ◌∷◌, ◌++◌, length,
  Result, ok, err, Result-cases, arith,
}
use evmfs.Prelude.Text.{Text}
use evmfs.Contract.{Call, store_manifest}
use evmfs.Cli.Manifest.{ManifestOutputEntry, manifest_json}
use evmfs.Web.Units.{FileEntry, Batch}
use evmfs.Web.Units.Packed.{all_units}
use evmfs.Web.Progress.{SavedProgress, Stored}
use evmfs.Web.ConfirmedMap.{unit_values, confirmed_from}
use evmfs.Web.Manifest.{build_manifest_entries}
use evmfs.Web.Upload.{
  PageEnv, Page, PageError, Uploaded, upload_loop, upload_manifest_with, uploaded_with,
  upload_files, saved_units, saved_gas,
}
use evmfs.Web.Upload.Cases.{PageReply-cases}
use evmfs.Web.Upload.Confirmed.{IsHonestPage}
use evmfs.Web.Callbacks.{
  Callback, batch_start, batch_sent, batch_confirmed, file_hashed, manifest_uploading, complete,
  on_error, loop_callbacks, manifest_callbacks, upload_callbacks,
}
use evmfs.Web.Callbacks.Counted.{hashed_count, is_hashed, hashed_count-append, hashed_count-loop}
use evmfs.Web.Files.{ProcessedFiles}
use evmfs.Web.UiState.{UploadUiState, completed, failed, on_callback, on_callbacks}
use evmfs.Web.App.{
  Run, Session, shortened, finished, fee_thrown, chosen_upload, start_upload, confirmed_before,
  page_upload,
}

on_callbacks-append :
    (xs ys : List Callback) (s : UploadUiState)
    → on_callbacks (xs ++ ys) s ≡ on_callbacks ys (on_callbacks xs s)
unfolding on_callbacks
on_callbacks-append [] ys s = refl
on_callbacks-append (c ∷ xs) ys s = on_callbacks-append xs ys (on_callback c s)

-- Every call of `onFileHashed` is counted, and no other, and the number of files stays.
on_callback_counts :
    (c : Callback) (s : UploadUiState)
    → ((on_callback c s).completed_files ≡ s.completed_files + is_hashed c)
      × ((on_callback c s).total_files ≡ s.total_files)
unfolding on_callback
on_callback_counts (batch_start i total files) s = (omega arith, refl)
on_callback_counts (batch_sent i hash) s = (omega arith, refl)
on_callback_counts (batch_confirmed i gas) s = (omega arith, refl)
on_callback_counts (file_hashed name hash) s = (omega arith, refl)
on_callback_counts manifest_uploading s = (omega arith, refl)
on_callback_counts (complete hash uri entries gas) s = (omega arith, refl)
on_callback_counts (on_error message) s = (omega arith, refl)

on_callbacks_counts :
    (calls : List Callback) (s : UploadUiState)
    → ((on_callbacks calls s).completed_files ≡ s.completed_files + hashed_count calls)
      × ((on_callbacks calls s).total_files ≡ s.total_files)
unfolding on_callbacks
on_callbacks_counts [] s = (omega arith, refl)
on_callbacks_counts (c ∷ calls) s =
    let (one, same) = on_callback_counts c s in
    let (more, kept) = on_callbacks_counts calls (on_callback c s) in
    (omega (arith, one, more), kept ∙ same)

module _ (env : PageEnv) (tx_hash : ℕ → Option Text) (message : PageError → Text)
    (files : List FileEntry) (filenames : ℕ → Option Text) where
  -- The calls after the loop, when the manifest is stored.
  abbrev last_calls : List ManifestOutputEntry → Uploaded → List Callback
  last_calls entries out =
      manifest_uploading ∷ complete out.manifest_hash out.base_uri entries out.page.gas_used ∷ []

  -- The call that stores the manifest of the entries.
  abbrev pub stored : List ManifestOutputEntry → Call
  stored entries = store_manifest (env.gzip_text (manifest_json entries))

  manifest_callbacks_last :
      (page : Page) (out : Uploaded)
      → upload_manifest_with env files filenames page ≡ ok out
      → (entries : List ManifestOutputEntry) × (manifest_callbacks env tx_hash files filenames page
          ≡ last_calls entries out)
        × (out.page.sent ≡ page.sent ++ stored entries ∷ [])
  unfolding upload_manifest_with uploaded_with manifest_callbacks
  manifest_callbacks_last page out h =
      elim (Result-cases
        (build_manifest_entries (length files) (unit_values page.confirmed) filenames)) [
          | inr (i, e) ↦ let h' = rw (e, upload_manifest_with) at h in absurd cc
          | inl (entries, e) ↦
              let h' = rw (e, upload_manifest_with) at h in
              let call = store_manifest (env.gzip_text (manifest_json entries)) in
              elim (PageReply-cases (env.submit (length page.sent) call)) [
                | inl f ↦ let h2 = rw (f, upload_manifest_with) at h' in absurd cc
                | inr (inl f) ↦ let h2 = rw (f, upload_manifest_with) at h' in absurd cc
                | inr (inr (block, gas, logs, f)) ↦
                    let h2 = rw (f, upload_manifest_with) at h' in
                    let same : uploaded_with env page call block gas logs ≡ out = cc in
                    (
                      entries,
                      subst
                          (λ o.
                            manifest_callbacks env tx_hash files filenames page
                            ≡ last_calls entries o)
                          same (rw (e, f, manifest_callbacks) refl),
                      sym (ap (λ (o : Uploaded). o.page.sent) same),
                    )
              ]
        ]

  module _ (batches : List Batch) (saved : Option SavedProgress) (storage : Stored) where
    abbrev first_page : Page
    first_page = record {
      confirmed = confirmed_from [] (saved_units env saved);
      gas_used = saved_gas env saved;
      storage = storage;
      sent = [];
    }

    -- The calls of an upload that completes.
    record HasCompleted (out : Uploaded) : Type 0 where
      done : Page
      looped : upload_loop env files batches first_page ≡ ok done
      entries : List ManifestOutputEntry
      calls :
          upload_callbacks env tx_hash files batches saved filenames storage
          ≡ loop_callbacks env tx_hash files 0 (length batches) batches first_page
            ++ last_calls entries out
      sent : out.page.sent ≡ done.sent ++ stored entries ∷ []

    upload_files-HasCompleted :
        (out : Uploaded)
        → upload_files env files batches saved filenames storage ≡ ok out
        → HasCompleted out
    unfolding upload_files upload_callbacks
    upload_files-HasCompleted out h =
        elim (Result-cases (upload_loop env files batches first_page)) [
          | inr (stopped, e) ↦ let h' = rw (e, upload_files) at h in absurd cc
          | inl (done, e) ↦
              let (entries, last, sent) =
                manifest_callbacks_last done out (rw (e, upload_files) at h) in
              record {
                done = done;
                looped = e;
                entries = entries;
                calls = rw (e, last, upload_callbacks) refl;
                sent = sent;
              }
        ]

    -- The manifest that is shown is the one that the upload's last call stores.
    pub record IsStored (out : Uploaded) (manifest : Option (List ManifestOutputEntry))
        : Type 0 where
      pub entries : List ManifestOutputEntry
      pub calls : List Call
      pub sent : out.page.sent ≡ calls ++ stored entries ∷ []
      pub shown : manifest ≡ some entries

    -- What the page shows after an upload came to a result.
    abbrev pub Shows : Session → Result PageError Uploaded → UploadUiState → Type 0
    Shows session (err e) s = (s.phase ≡ failed) × (s.error ≡ some (shortened session (message e)))
    Shows session (ok out) s =
        (s.phase ≡ completed)
        × (s.manifest_hash ≡ some out.manifest_hash)
        × (s.base_uri ≡ some out.base_uri)
        × (s.total_gas_used ≡ some out.page.gas_used)
        × IsStored out s.manifest

    abbrev run : Run
    run = page_upload env tx_hash message files batches saved filenames storage

    completed_calls :
        (entries : List ManifestOutputEntry) (out : Uploaded) (calls : List Callback)
        (session : Session) (s : UploadUiState) (before : List Call)
        → out.page.sent ≡ before ++ stored entries ∷ []
        → Shows session (ok out) (on_callbacks (calls ++ last_calls entries out) s)
    unfolding on_callbacks on_callback
    completed_calls entries out calls session s before sent =
        let same = on_callbacks-append calls (last_calls entries out) s in
        subst (Shows session (ok out)) (sym same) (
          refl,
          refl,
          refl,
          refl,
          record { entries = entries; calls = before; sent = sent; shown = refl },
        )

    module _ (session : Session) (result : ProcessedFiles)
        (chosen : chosen_upload session saved filenames ≡ run)
        (paid : fee_thrown session result saved ≡ none) where
      run-Shows :
          (s : UploadUiState)
          → Shows session
              (upload_files env files batches saved filenames storage)
              (finished session run.thrown (on_callbacks run.callbacks s))
      unfolding page_upload
      run-Shows s = elim (Result-cases (upload_files env files batches saved filenames storage)) [
        | inr (e, stopped) ↦ rw stopped (refl, refl)
        | inl (out, completes) ↦
            let last = upload_files-HasCompleted out completes in
            let calls = loop_callbacks env tx_hash files 0 (length batches) batches first_page in
            rw (completes, last.calls)
              (completed_calls last.entries out calls session s last.done.sent last.sent)
      ]

      -- If the upload that is chosen is `uploadFiles` and no fee is refused, `startUpload` ends with
      -- the page showing what the upload came to: when it completes, its manifest hash, its address,
      -- its gas and the entries of the manifest that its last call stores, and otherwise its error.
      pub start_upload-Shows :
          (before : UploadUiState)
          → Shows session
              (upload_files env files batches saved filenames storage)
              (start_upload session (some result) saved filenames before)
      unfolding start_upload
      start_upload-Shows before = rw (paid, chosen, start_upload) (run-Shows _)

      -- If moreover the contract logs what it stores and the upload completes, the page has counted
      -- the units that were confirmed before and then every unit of every batch, also those that
      -- were confirmed before: a resumed upload counts them twice.
      pub start_upload-completed_files :
          IsHonestPage env
          → (out : Uploaded) (before : UploadUiState)
          → upload_files env files batches saved filenames storage ≡ ok out
          → (start_upload session (some result) saved filenames before).completed_files
            ≡ confirmed_before saved + length (all_units batches)
      unfolding start_upload page_upload
      start_upload-completed_files honest out before completes =
          let last = upload_files-HasCompleted out completes in
          let calls = loop_callbacks env tx_hash files 0 (length batches) batches first_page in
          let counted =
            hashed_count-loop env tx_hash honest files 0 (length batches) batches first_page
              last.done last.looped in
          let split = hashed_count-append calls (last_calls last.entries out) in
          rw (paid, chosen, completes, last.calls, start_upload)
            ((on_callbacks_counts (calls ++ last_calls last.entries out) _).0
              ∙ omega (arith, split, counted))
