-- ===== src/Cli/Manifest/State.antt =====
-- cli/src/manifest.ts: the progress file, written and read back, and the legacy format.
use evmfs.Prelude.{◌≡◌, refl, some}
use evmfs.Cli.Manifest.{UploadState, load_upload_state, save_upload_state}

-- Loading what was saved gives the state back.
pub load-save :
    (state : UploadState) → load_upload_state (some (save_upload_state state)) ≡ some state
unfolding load_upload_state save_upload_state
load-save state = refl
