-- ===== src/Web/UiState.antt =====
-- web/src/App.tsx and the bar of web/src/components/UploadProgress.tsx: the state that the upload page
-- shows, and what the calls of an upload do to it.
use evmfs.Prelude.{
  ℕ, suc, ◌+◌, ◌*◌, max, Bool, true, false, Option, none, some, List, [], ◌∷◌, ◌++◌, ltb,
  if◌then◌else◌,
}
use evmfs.Prelude.Text.{Text, codes}
use evmfs.Prelude.Digits.{decimal}
use evmfs.Cli.Manifest.{ManifestOutputEntry}
use evmfs.Web.Callbacks.{
  Callback, batch_start, batch_sent, batch_confirmed, file_hashed, manifest_uploading, complete,
  on_error,
}

pub data Phase : Type 0 where
  idle uploading manifest completed failed : Phase

-- `manifest` stands for `manifestJson`: the entries whose JSON text it is.
pub record UploadUiState : Type 0 where
  pub phase : Phase
  pub current_batch : ℕ
  pub total_batches : ℕ
  pub current_tx_hash : Option Text
  pub status : Text
  pub completed_files : ℕ
  pub total_files : ℕ
  pub manifest_hash : Option Text
  pub base_uri : Option Text
  pub manifest : Option (List ManifestOutputEntry)
  pub total_gas_used : Option ℕ
  pub error : Option Text

-- The state at first and after an error is dismissed.
abbrev pub idle_state : UploadUiState
idle_state = record {
  phase = idle;
  current_batch = 0;
  total_batches = 0;
  current_tx_hash = none;
  status = [];
  completed_files = 0;
  total_files = 0;
  manifest_hash = none;
  base_uri = none;
  manifest = none;
  total_gas_used = none;
  error = none;
}

abbrev pub batch_status : ℕ → ℕ → ℕ → Text
batch_status i total files =
    codes "Uploading batch "
    ++ decimal (suc i)
    ++ codes " of "
    ++ decimal total
    ++ codes " ("
    ++ decimal files
    ++ codes " files)..."

-- The state that shows an error.
abbrev pub show_error : Text → UploadUiState → UploadUiState
show_error message s = record s {
  phase = failed;
  error = some message;
  status = codes "Error: " ++ message;
}

-- `createCallbacks`
unfoldable pub on_callback : Callback → UploadUiState → UploadUiState
on_callback (batch_start i total files) s = record s {
  phase = uploading;
  current_batch = suc i;
  total_batches = total;
  status = batch_status i total files;
  current_tx_hash = none;
}
on_callback (batch_sent i hash) s = record s {
  current_tx_hash = some hash;
  status = codes "Waiting for confirmation...";
}
on_callback (batch_confirmed i gas) s = s
on_callback (file_hashed name hash) s = record s { completed_files = suc s.completed_files }
on_callback manifest_uploading s = record s {
  phase = manifest;
  status = codes "Uploading manifest...";
  current_tx_hash = none;
}
on_callback (complete hash uri entries gas) s = record s {
  phase = completed;
  manifest_hash = some hash;
  base_uri = some uri;
  manifest = some entries;
  total_gas_used = some gas;
  status = codes "Complete!";
}
on_callback (on_error message) s = show_error message s

unfoldable pub on_callbacks : List Callback → UploadUiState → UploadUiState
unfolding on_callback
on_callbacks [] s = s
on_callbacks (c ∷ calls) s = on_callbacks calls (on_callback c s)

abbrev pub is_uploading : Phase → Bool
is_uploading uploading = true
is_uploading manifest = true
is_uploading _ = false

-- `overallProgress`, a percentage, as a fraction
unfoldable pub overall_progress : UploadUiState → ℕ × ℕ
overall_progress s = elim s.phase [
  | completed ↦ (100, 1)
  | manifest ↦ (90 * max s.total_files 1 + 10 * s.completed_files, max s.total_files 1)
  | idle ↦ if ltb 0 s.total_batches then (s.current_batch * 90, s.total_batches) else (0, 1)
  | uploading ↦ if ltb 0 s.total_batches then (s.current_batch * 90, s.total_batches) else (0, 1)
  | failed ↦ if ltb 0 s.total_batches then (s.current_batch * 90, s.total_batches) else (0, 1)
]
