-- ===== src/Web/Upload/Completed.antt =====
-- web/src/lib/evmfs.ts, `uploadFiles`: how a run that returns has come to its end.
use evmfs.Prelude.{
  ℕ, ◌≡◌, refl, sym, ap, inl, inr, Option, List, [], ◌∷◌, ◌++◌, length, Result, ok, err,
  Result-cases,
}
use evmfs.Prelude.Text.{Text}
use evmfs.Contract.{store_manifest}
use evmfs.Cli.Manifest.{ManifestOutputEntry, manifest_json}
use evmfs.Web.Units.{FileEntry, Batch}
use evmfs.Web.Progress.{ConfirmedUnit, SavedProgress, Stored}
use evmfs.Web.Manifest.{build_manifest_entries}
use evmfs.Web.ConfirmedMap.{unit_values, confirmed_from}
use evmfs.Web.Upload.{
  PageLog, mined, page_manifest_hash, PageEnv, Page, PageError, Uploaded, upload_loop,
  upload_manifest_with, uploaded_with, upload_files, saved_units, saved_gas,
}
use evmfs.Web.Upload.Cases.{PageReply-cases}

-- The confirmed units of a result, none of an error.
abbrev pub confirmed_in : Result PageError Uploaded → List ConfirmedUnit
confirmed_in (ok out) = out.confirmed
confirmed_in (err e) = []

of_ok : (a b : Uploaded) (r : Result PageError Uploaded) → r ≡ ok a → r ≡ ok b → a ≡ b
of_ok a b r e h = cc

module _ (env : PageEnv) (files : List FileEntry) (filenames : ℕ → Option Text) where
  -- The page's units make the entries, and the manifest of them is the last transaction.
  pub record IsCompletedFrom (page : Page) (out : Uploaded) : Type 0 where
    pub entries : List ManifestOutputEntry
    pub built :
        build_manifest_entries (length files) (unit_values page.confirmed) filenames ≡ ok entries
    pub confirmed : unit_values page.confirmed ≡ out.confirmed
    pub sent :
        out.page.sent ≡ page.sent ++ store_manifest (env.gzip_text (manifest_json entries)) ∷ []
    pub block : ℕ
    pub gas : ℕ
    pub logs : List PageLog
    pub answer :
        env.submit (length page.sent) (store_manifest (env.gzip_text (manifest_json entries)))
        ≡ mined block gas logs
    pub manifest_hash : out.manifest_hash ≡ page_manifest_hash env [] logs

  upload_manifest_with-IsCompletedFrom :
      (page : Page) (out : Uploaded)
      → upload_manifest_with env files filenames page ≡ ok out
      → IsCompletedFrom page out
  unfolding upload_manifest_with uploaded_with
  upload_manifest_with-IsCompletedFrom page out h =
      elim (Result-cases
        (build_manifest_entries (length files) (unit_values page.confirmed) filenames)) [
          | inr (i, e) ↦ let h' = rw (e, upload_manifest_with) at h in cc
          | inl (entries, e) ↦
              let h' = rw (e, upload_manifest_with) at h in
              let call = store_manifest (env.gzip_text (manifest_json entries)) in
              elim (PageReply-cases (env.submit (length page.sent) call)) [
                | inl f ↦ let h2 = rw (f, upload_manifest_with) at h' in cc
                | inr (inl f) ↦ let h2 = rw (f, upload_manifest_with) at h' in cc
                | inr (inr (block, gas, logs, f)) ↦
                    let same =
                      of_ok (uploaded_with env page call block gas logs) out _ refl
                        (rw (f, upload_manifest_with) at h') in
                    record {
                      entries = entries;
                      built = e;
                      confirmed = ap (λ (o : Uploaded). o.confirmed) same;
                      sent = sym (ap (λ (o : Uploaded). o.page.sent) same);
                      block = block;
                      gas = gas;
                      logs = logs;
                      answer = f;
                      manifest_hash = sym (ap (λ (o : Uploaded). o.manifest_hash) same);
                    }
              ]
        ]

  -- The page that `uploadFiles` begins with.
  abbrev pub first_page : Option SavedProgress → Stored → Page
  first_page saved storage = record {
    confirmed = confirmed_from [] (saved_units env saved);
    gas_used = saved_gas env saved;
    storage = storage;
    sent = [];
  }

  pub upload_files-cases :
      (batches : List Batch) (saved : Option SavedProgress) (storage : Stored) (out : Uploaded)
      → upload_files env files batches saved filenames storage ≡ ok out
      → (done : Page) × (upload_loop env files batches (first_page saved storage) ≡ ok done)
        × IsCompletedFrom done out
  unfolding upload_files
  upload_files-cases batches saved storage out h =
      elim (Result-cases (upload_loop env files batches (first_page saved storage))) [
        | inr (stopped, e) ↦ let h' = rw (e, upload_files) at h in cc
        | inl (done, e) ↦
            (done, e, upload_manifest_with-IsCompletedFrom done out (rw (e, upload_files) at h))
      ]
