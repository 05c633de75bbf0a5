-- ===== src/Cli/Upload/Command/Resumption.antt =====
-- cli/src/upload.ts: a run after one that failed in a batch.
use evmfs.Prelude.{ℕ, ◌≡◌, ◌≢◌, ◌∙◌, ap, Bool, true, Option, none, some, List}
use evmfs.Prelude.Text.{Text, codes, text_eq, to_lower}
use evmfs.Contract.{Call}
use evmfs.Cli.Batch.{FileEntry, expand_files_to_units}
use evmfs.Cli.Batch.Files.{IndexedFrom}
use evmfs.Cli.Manifest.{UploadState, SavedFile, load_upload_state}
use evmfs.Cli.Manifest.State.{load-save}
use evmfs.Cli.Upload.Resume.Partition.{manifest_hash-discard_stale}
use evmfs.Cli.Upload.Send.{Reply, failed}
use evmfs.Cli.Upload.Send.Receipts.{IsHonest, Distinct}
use evmfs.Cli.Upload.Assemble.Complete.{IsFaithful}
use evmfs.Cli.Upload.Command.{UploadOptions, Env, batch_error, upload_from}
use evmfs.Cli.Upload.Command.Run.{IsCompleted, batches_from, upload_from-IsCompleted}
use evmfs.Cli.Upload.Command.Failure.{upload_from-KeepsProgress}

-- The same world later: other transactions, another answer.
abbrev pub later : Env → (ℕ → Call → Reply) → Text → Env
later env submit answer = record env { submit = submit; answer = answer }

module _ (env : Env) (options : UploadOptions) (include_filenames : Bool) (files : List FileEntry)
    (saved : Option SavedFile) (loaded : UploadState) (submit : ℕ → Call → Reply)
    (answer : Text) where
  -- Let a run over an honest contract, from faithful progress with no manifest, fail in a batch. Then
  -- its progress file can be loaded, and a run from it whose transactions all get receipts and that
  -- is answered `y` completes the upload of the same files.
  pub resume_after_failure :
      IsHonest env.keccak256 env.submit
      → IndexedFrom 0 files
      → Distinct env.keccak256 (expand_files_to_units files)
      → IsFaithful env.keccak256 (expand_files_to_units files) loaded.chunks
      → loaded.manifest_hash ≡ none
      → (upload_from env options include_filenames files saved loaded).exit ≡ batch_error
      → IsHonest env.keccak256 submit
      → ((i : ℕ) (call : Call) → submit i call ≢ failed)
      → text_eq (to_lower answer) (codes "y") ≡ true
      → (state : UploadState) × (load_upload_state
            (upload_from env options include_filenames files saved loaded).world.saved
          ≡ some state)
        × IsCompleted
            (later env submit answer)
            options
            include_filenames
            files
            (batches_from env options include_filenames files state)
            (upload_from
              (later env submit answer)
              options
              include_filenames
              files
              (upload_from env options include_filenames files saved loaded).world.saved
              state)
  resume_after_failure honest indexed distinct faithful no_hash stopped honest' answered
        yes_answer =
      let o = upload_from env options include_filenames files saved loaded in
      let kept =
        upload_from-KeepsProgress env options include_filenames files honest indexed distinct saved
          loaded faithful in
      (
        o.world.state,
        ap load_upload_state (kept.saved stopped) ∙ load-save o.world.state,
        upload_from-IsCompleted (later env submit answer) options include_filenames files honest'
            answered o.world.saved o.world.state indexed kept.faithful
            (kept.hash stopped
              ∙ manifest_hash-discard_stale (expand_files_to_units files) loaded
              ∙ no_hash)
            distinct yes_answer,
      )
