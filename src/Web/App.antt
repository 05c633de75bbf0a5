-- ===== src/Web/App.antt =====
-- web/src/App.tsx: `startUpload`. The two uploads and the payment of the fee are parameters.
pub mod Ends
use evmfs.Prelude.{
  ℕ, zero, suc, ◌+◌, ◌*◌, max, Bool, true, false, ◌&&◌, ◌||◌, not, Option, none, some, List, [],
  ◌∷◌, ◌++◌, length, get_elem?, take, ltb, Result, ok, err, if◌then◌else◌,
}
use evmfs.Prelude.Text.{Text, codes, text_eq}
use evmfs.Prelude.Digits.{decimal}
use evmfs.Cli.Manifest.{ManifestOutputEntry}
use evmfs.Web.Units.{FileEntry, Batch}
use evmfs.Web.Progress.{SavedProgress, Stored}
use evmfs.Web.Manifest.{get_display_hash}
use evmfs.Web.Callbacks.{
  Callback, batch_start, batch_sent, batch_confirmed, file_hashed, manifest_uploading, complete,
  on_error, upload_callbacks,
}
use evmfs.Web.Upload.{PageEnv, PageError, Uploaded, upload_files}
use evmfs.Web.Files.{ProcessedFiles, calculate_fee}
use evmfs.Web.History.{SavedFile, SavedUpload}
use evmfs.Web.UiState.{
  Phase, idle, uploading, manifest, completed, failed, UploadUiState, idle_state, batch_status,
  show_error, on_callback, on_callbacks, is_uploading, overall_progress,
}

-- The hash that the history keeps for the file at a position: of its manifest entry, if it has one.
abbrev pub saved_hash : Option ManifestOutputEntry → Text
saved_hash none = []
saved_hash (some entry) = get_display_hash entry

-- The files of the upload that `onComplete` saves, from the position `i`.
unfoldable pub saved_files : List ManifestOutputEntry → ℕ → List FileEntry → List SavedFile
saved_files entries i [] = []
saved_files entries i (f ∷ files) =
    record { index = f.index; filename = f.name; content_hash = saved_hash (get_elem? entries i) }
    ∷ saved_files entries (suc i) files

-- The upload that `onComplete` saves. The id, the time and the label with today's date are parameters.
abbrev pub saved_upload :
    Text → ℕ → Text → ℕ → ProcessedFiles → Text → Text → List ManifestOutputEntry → ℕ → SavedUpload
saved_upload id now label chain_id result hash uri entries gas = record {
  id = id;
  timestamp = now;
  chain_id = chain_id;
  manifest_hash = hash;
  base_uri = uri;
  total_gas_used = gas;
  file_count = length result.files;
  files = saved_files entries 0 result.files;
  label = label;
}

-- An upload: the calls that it makes, and the message if it throws.
pub record Run : Type 0 where
  pub callbacks : List Callback
  pub thrown : Option Text

abbrev pub thrown_by : (PageError → Text) → Result PageError Uploaded → Option Text
thrown_by message (ok out) = none
thrown_by message (err e) = some (message e)

-- `uploadFiles` as the page runs it: its calls, and the message of what it throws.
unfoldable pub page_upload :
    PageEnv
    → (ℕ → Option Text)
    → (PageError → Text)
    → List FileEntry
    → List Batch
    → Option SavedProgress
    → (ℕ → Option Text)
    → Stored
    → Run
page_upload env tx_hash message files batches saved filenames storage = record {
  callbacks = upload_callbacks env tx_hash files batches saved filenames storage;
  thrown = thrown_by message (upload_files env files batches saved filenames storage);
}

-- `uploadMode` and `pkConfig`, the wallet with its account and its client, what comes of paying a fee
-- (a message if it throws), and the uploads.
pub record Session : Type 0 where
  pub key_mode : Bool
  pub has_key : Bool
  pub is_connected : Bool
  pub has_wallet : Bool
  pub has_account : Bool
  pub has_public_client : Bool
  pub pay : ℕ → Option Text
  pub key_upload : Option SavedProgress → (ℕ → Option Text) → Run
  pub wallet_upload : Option SavedProgress → (ℕ → Option Text) → Run

abbrev pub is_resume : Option SavedProgress → Bool
is_resume none = false
is_resume (some p) = true

abbrev pub confirmed_before : Option SavedProgress → ℕ
confirmed_before none = 0
confirmed_before (some p) = length p.confirmed

abbrev pub started : ProcessedFiles → Option SavedProgress → UploadUiState
started result resume = record idle_state {
  phase = uploading;
  total_batches = length result.batches;
  status = if is_resume resume then codes "Resuming upload..." else codes "Sending protocol fee...";
  completed_files = confirmed_before resume;
  total_files = result.total_units;
}

module _ (session : Session) where
  abbrev pub uses_key : Bool
  uses_key = session.key_mode && session.has_key

  -- Whether a fee is asked for: by the key, or by a wallet that has an account.
  unfoldable pub pays_fee : ProcessedFiles → Option SavedProgress → Bool
  pays_fee result resume =
      not (is_resume resume)
      && ltb 0 (calculate_fee result.total_original_size)
      && (uses_key || (session.has_wallet && session.has_account))

  unfoldable pub fee_thrown : ProcessedFiles → Option SavedProgress → Option Text
  unfolding pays_fee
  fee_thrown result resume =
      if pays_fee result resume
      then session.pay (calculate_fee result.total_original_size)
      else none

  -- The upload that is chosen; with no wallet an error is thrown.
  unfoldable pub chosen_upload : Option SavedProgress → (ℕ → Option Text) → Run
  chosen_upload resume filenames =
      if uses_key
      then session.key_upload resume filenames
      else if session.has_wallet && session.has_public_client
      then session.wallet_upload resume filenames
      else (record {
        callbacks = [];
        thrown = some (codes "No wallet connected. Please connect your wallet and try again.");
      })

  -- The message of an exception, cut at 500 characters.
  abbrev pub shortened : Text → Text
  shortened raw = if ltb 500 (length raw) then take 500 raw ++ codes "…" else raw

  abbrev pub finished : Option Text → UploadUiState → UploadUiState
  finished none s = s
  finished (some raw) s = show_error (shortened raw) s

  -- `startUpload`
  unfoldable pub start_upload :
      Option ProcessedFiles
      → Option SavedProgress
      → (ℕ → Option Text)
      → UploadUiState
      → UploadUiState
  unfolding fee_thrown chosen_upload on_callbacks
  start_upload none resume filenames s = s
  start_upload (some result) resume filenames s = elim (fee_thrown result resume) [
    | some raw ↦ finished (some raw) (started result resume)
    | none ↦
        let run = chosen_upload resume filenames in
        let status =
          if is_resume resume then codes "Resuming upload..." else codes "Starting upload..." in
        finished run.thrown
          (on_callbacks run.callbacks (record (started result resume) { status = status }))
  ]

  abbrev pub is_idle : Phase → Bool
  is_idle idle = true
  is_idle _ = false

  -- `canUpload`. `EVMFS_CONTRACT` is not the zero address.
  abbrev pub can_upload : Option ProcessedFiles → UploadUiState → Bool
  can_upload none s = false
  can_upload (some result) s =
      (if session.key_mode then session.has_key else session.is_connected) && is_idle s.phase
