-- ===== src/Web/KeyUpload.antt =====
-- web/src/lib/evmfs.ts, `uploadFilesWithPrivateKey`: the upload of `uploadFiles` with a key of its
-- own, which numbers its transactions. The key, the node and ethers' reading of logs are parameters.
pub mod Honest
pub mod Attempts
pub mod SameAsWallet
use evmfs.Prelude.{
  ℕ, zero, suc, ◌+◌, Option, none, some, List, [], ◌∷◌, ◌++◌, map, length, Result, ok, err,
  if◌then◌else◌,
}
use evmfs.Prelude.Text.{Text}
use evmfs.Contract.{Call, store_manifest}
use evmfs.Cli.Manifest.{manifest_json}
use evmfs.Web.Units.{FileEntry, UploadUnit, Batch}
use evmfs.Web.Progress.{SavedProgress, Stored, absent, save_progress}
use evmfs.Web.ConfirmedMap.{
  ConfirmedMap, compute_confirmed_key, set_unit, unit_values, confirmed_from, confirmed_unit,
  all_confirmed,
}
use evmfs.Web.Manifest.{build_manifest_entries}
use evmfs.Web.Upload.{
  PageLog, PageEnv, Page, PageError, batch_failed, missing_units, manifest_failed, Uploaded,
  call_of, batch_retries, unit_of_hash, progress_of, sending, page_registration, page_base_uri,
  saved_units, saved_gas,
}

-- A log, with what `parseLog` reads in it: the hash of a `Store` event.
pub record KeyLog : Type 0 where
  pub log : PageLog
  pub store_hash : Option Text

pub data KeyReply : Type 0 where
  key_failed : KeyReply
  key_reverted : KeyReply
  key_mined : ℕ → ℕ → List KeyLog → KeyReply

-- `shared` is what the upload has in common with that of a wallet, whose `submit` is not used:
-- `sign n nonce call` answers the transaction that is sent as the `n`th. `pending_count n` is what
-- `getTransactionCount` gives when `n` transactions have been sent.
pub record KeyEnv : Type 0 where
  pub shared : PageEnv
  pub sign : ℕ → ℕ → Call → KeyReply
  pub pending_count : ℕ → Option ℕ

-- The page, the next nonce, and the nonces of the transactions that were sent.
pub record KeyPage : Type 0 where
  pub page : Page
  pub nonce : ℕ
  pub nonces : List ℕ

pub data KeyError : Type 0 where
  no_nonce : KeyError
  upload_failed : PageError → KeyError

-- `registration_nonce` is the nonce that a registration in the block index would carry.
pub record KeyUploaded : Type 0 where
  pub uploaded : Uploaded
  pub nonces : List ℕ
  pub registration_nonce : ℕ

module _ (key : KeyEnv) where
  -- One log of a batch's receipt.
  unfoldable pub confirm_key_log : List UploadUnit → ℕ → KeyLog → ConfirmedMap → ConfirmedMap
  confirm_key_log units block log m = elim log.store_hash [
    | none ↦ m
    | some hash ↦ elim (unit_of_hash key.shared units hash) [
      | none ↦ m
      | some u ↦ set_unit (compute_confirmed_key u) (confirmed_unit hash block u) m
    ]
  ]

  unfoldable pub confirm_key_logs : List UploadUnit → ℕ → List KeyLog → ConfirmedMap → ConfirmedMap
  confirm_key_logs units block [] m = m
  confirm_key_logs units block (log ∷ logs) m =
      confirm_key_logs units block logs (confirm_key_log units block log m)

  -- A transaction goes out under the next nonce.
  abbrev pub key_sending : KeyPage → Call → KeyPage
  key_sending s call = record s {
    page = sending key.shared s.page call;
    nonces = s.nonces ++ s.nonce ∷ [];
  }

  -- After the receipt of a batch the nonce is raised.
  unfoldable pub key_record_mined :
      List FileEntry → List UploadUnit → ℕ → ℕ → List KeyLog → KeyPage → KeyPage
  key_record_mined files units block gas logs s =
      let m = confirm_key_logs units block logs s.page.confirmed in
      let now = key.shared.clock (length s.page.sent) in
      let p = progress_of key.shared files m (s.page.gas_used + gas) now in
      record {
        page = record {
          confirmed = m;
          gas_used = s.page.gas_used + gas;
          storage = save_progress key.shared.storage_throws p s.page.storage;
          sent = s.page.sent ++ call_of units ∷ [];
        };
        nonce = suc s.nonce;
        nonces = s.nonces ++ s.nonce ∷ [];
      }

  -- After a failure the nonce is asked for again, unless no attempt is left.
  unfoldable pub renewed : ℕ → KeyPage → Option KeyPage
  renewed zero s = some s
  renewed (suc left) s = elim (key.pending_count (length s.page.sent)) [
    | none ↦ none
    | some nonce ↦ some (record s { nonce = nonce })
  ]

  -- The attempts at a batch; with none left, or when the nonce is not known, the error is thrown.
  unfoldable pub key_attempt_batch :
      List FileEntry → List UploadUnit → ℕ → KeyPage → Result KeyPage KeyPage
  unfolding renewed
  key_attempt_batch files units zero s = err s
  key_attempt_batch files units (suc left) s =
      let next = key_sending s (call_of units) in
      elim (key.sign (length s.page.sent) s.nonce (call_of units)) [
        | key_failed ↦ elim (renewed left next) [
          | none ↦ err next
          | some again ↦ key_attempt_batch files units left again
        ]
        | key_reverted ↦ elim (renewed left next) [
          | none ↦ err next
          | some again ↦ key_attempt_batch files units left again
        ]
        | key_mined block gas logs ↦ ok (key_record_mined files units block gas logs s)
      ]

  unfoldable pub key_upload_batch : List FileEntry → Batch → KeyPage → Result KeyPage KeyPage
  key_upload_batch files batch s =
      if all_confirmed s.page.confirmed batch.units
      then ok s
      else key_attempt_batch files batch.units batch_retries s

  unfoldable pub key_upload_loop : List FileEntry → List Batch → KeyPage → Result KeyPage KeyPage
  key_upload_loop files [] s = ok s
  key_upload_loop files (batch ∷ batches) s = elim (key_upload_batch files batch s) [
    | err stopped ↦ err stopped
    | ok next ↦ key_upload_loop files batches next
  ]

  -- The hash of the last `Store` event.
  unfoldable pub key_manifest_hash : Text → List KeyLog → Text
  key_manifest_hash hash [] = hash
  key_manifest_hash hash (log ∷ logs) = elim log.store_hash [
    | none ↦ key_manifest_hash hash logs
    | some h ↦ key_manifest_hash h logs
  ]

  -- After the manifest's receipt; a registration is sent under the nonce after the manifest's.
  unfoldable pub key_uploaded_with : KeyPage → Call → ℕ → ℕ → List KeyLog → KeyUploaded
  key_uploaded_with s call block gas logs =
      let hash = key_manifest_hash [] logs in
      record {
        uploaded = record {
          manifest_hash = hash;
          base_uri = page_base_uri key.shared block hash;
          confirmed = unit_values s.page.confirmed;
          page = record {
            confirmed = s.page.confirmed;
            gas_used = s.page.gas_used + gas;
            storage = absent;
            sent = s.page.sent ++ call ∷ [];
          };
          registration = page_registration key.shared hash block;
        };
        nonces = s.nonces ++ s.nonce ∷ [];
        registration_nonce = suc s.nonce;
      }

  unfoldable pub key_upload_manifest :
      List FileEntry → (ℕ → Option Text) → KeyPage → Result PageError KeyUploaded
  key_upload_manifest files filenames s =
      elim (build_manifest_entries (length files) (unit_values s.page.confirmed) filenames) [
        | err i ↦ err (missing_units i)
        | ok entries ↦
            let call = store_manifest (key.shared.gzip_text (manifest_json entries)) in
            elim (key.sign (length s.page.sent) s.nonce call) [
              | key_failed ↦ err manifest_failed
              | key_reverted ↦ err manifest_failed
              | key_mined block gas logs ↦ ok (key_uploaded_with s call block gas logs)
            ]
      ]

  -- The page of a run that has sent nothing.
  abbrev pub key_start : Option SavedProgress → Stored → ℕ → KeyPage
  key_start saved storage nonce = record {
    page = record {
      confirmed = confirmed_from [] (saved_units key.shared saved);
      gas_used = saved_gas key.shared saved;
      storage = storage;
      sent = [];
    };
    nonce = nonce;
    nonces = [];
  }

  -- The batches and the manifest, from a page.
  unfoldable pub key_upload_from :
      List FileEntry → List Batch → (ℕ → Option Text) → KeyPage → Result PageError KeyUploaded
  key_upload_from files batches filenames s = elim (key_upload_loop files batches s) [
    | err stopped ↦ err batch_failed
    | ok done ↦ key_upload_manifest files filenames done
  ]

  -- `uploadFilesWithPrivateKey`
  unfoldable pub upload_files_with_private_key :
      List FileEntry
      → List Batch
      → Option SavedProgress
      → (ℕ → Option Text)
      → Stored
      → Result KeyError KeyUploaded
  upload_files_with_private_key files batches saved filenames storage = elim (key.pending_count 0) [
    | none ↦ err no_nonce
    | some nonce ↦ elim (key_upload_from files batches filenames (key_start saved storage nonce)) [
      | err e ↦ err (upload_failed e)
      | ok out ↦ ok out
    ]
  ]
