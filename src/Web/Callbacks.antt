-- ===== src/Web/Callbacks.antt =====
-- web/src/lib/evmfs.ts, `UploadCallbacks` and the calls of them in `uploadFiles`: what the upload tells
-- the page, in order. The hashes of the transactions are a parameter.
pub mod Counted
use evmfs.Prelude.{
  ℕ, zero, suc, ◌+◌, Option, none, some, List, [], ◌∷◌, ◌++◌, map, length, Result, ok, err,
  if◌then◌else◌,
}
use evmfs.Prelude.Text.{Text, text_eq}
use evmfs.Contract.{store_manifest}
use evmfs.Cli.Manifest.{ManifestOutputEntry, manifest_json}
use evmfs.Web.Units.{FileEntry, UploadUnit, Batch}
use evmfs.Web.Progress.{SavedProgress, Stored}
use evmfs.Web.ConfirmedMap.{
  ConfirmedMap, compute_confirmed_key, unit_values, confirmed_from, all_confirmed,
}
use evmfs.Web.Manifest.{build_manifest_entries}
use evmfs.Web.Upload.{
  PageLog, failed, reverted, mined, PageEnv, Page, call_of, batch_retries, own_topic, unit_of_hash,
  sending, upload_batch, upload_loop, page_manifest_hash, page_base_uri, saved_units, saved_gas,
}

-- `complete` carries the manifest's entries, whose JSON text is what the code passes.
pub data Callback : Type 0 where
  batch_start : ℕ → ℕ → ℕ → Callback
  batch_sent : ℕ → Text → Callback
  batch_confirmed : ℕ → ℕ → Callback
  file_hashed : Text → Text → Callback
  manifest_uploading : Callback
  complete : Text → Text → List ManifestOutputEntry → ℕ → Callback
  on_error : Text → Callback

-- `confirmed.get(key)!.hash`, for a key that the map has
unfoldable pub hash_at : Text → ConfirmedMap → Text
hash_at key [] = []
hash_at key ((k, c) ∷ m) = let later = hash_at key m in if text_eq k key then c.hash else later

-- The calls for a batch that is skipped.
abbrev pub skipped_callbacks : ℕ → List UploadUnit → ConfirmedMap → List Callback
skipped_callbacks i units m =
    batch_confirmed i 0 ∷ map (λ u. file_hashed u.name (hash_at (compute_confirmed_key u) m)) units

module _ (env : PageEnv) where
  -- The calls for the logs of a receipt.
  unfoldable pub log_callbacks : List UploadUnit → List PageLog → List Callback
  log_callbacks units [] = []
  log_callbacks units (log ∷ logs) =
      let rest = log_callbacks units logs in
      elim (own_topic env log) [
        | none ↦ rest
        | some hash ↦ elim (unit_of_hash env units hash) [
          | none ↦ rest
          | some u ↦ file_hashed u.name hash ∷ rest
        ]
      ]

-- `tx_hash n` is the hash of the transaction that is sent as the `n`th, if the wallet sends it.
module _ (env : PageEnv) (tx_hash : ℕ → Option Text) where
  unfoldable pub sent_callbacks : ℕ → ℕ → List Callback
  sent_callbacks i n = elim (tx_hash n) [ none ↦ [] | some hash ↦ batch_sent i hash ∷ [] ]

  -- The calls during the attempts at a batch.
  unfoldable pub attempt_callbacks : ℕ → List UploadUnit → ℕ → Page → List Callback
  attempt_callbacks i units zero page = []
  attempt_callbacks i units (suc left) page =
      let n = length page.sent in
      let again = attempt_callbacks i units left (sending env page (call_of units)) in
      sent_callbacks i n ++ elim (env.submit n (call_of units)) [
        | failed ↦ again
        | reverted ↦ again
        | mined block gas logs ↦ batch_confirmed i gas ∷ log_callbacks env units logs
      ]

  unfoldable pub batch_callbacks : ℕ → ℕ → Batch → Page → List Callback
  batch_callbacks i total batch page =
      if all_confirmed page.confirmed batch.units
      then skipped_callbacks i batch.units page.confirmed
      else batch_start i total (length batch.units)
        ∷ attempt_callbacks i batch.units batch_retries page

  -- The calls of the loop from the batch `i` on.
  unfoldable pub loop_callbacks : List FileEntry → ℕ → ℕ → List Batch → Page → List Callback
  loop_callbacks files i total [] page = []
  loop_callbacks files i total (batch ∷ batches) page =
      batch_callbacks i total batch page ++ elim (upload_batch env files batch page) [
        | err stopped ↦ []
        | ok next ↦ loop_callbacks files (suc i) total batches next
      ]

  unfoldable pub manifest_callbacks : List FileEntry → (ℕ → Option Text) → Page → List Callback
  manifest_callbacks files filenames page =
      manifest_uploading
      ∷ elim (build_manifest_entries (length files) (unit_values page.confirmed) filenames) [
        | err i ↦ []
        | ok entries ↦
            elim (env.submit (length page.sent)
              (store_manifest (env.gzip_text (manifest_json entries)))) [
                | failed ↦ []
                | reverted ↦ []
                | mined block gas logs ↦
                    let hash = page_manifest_hash env [] logs in
                    complete hash (page_base_uri env block hash) entries (page.gas_used + gas) ∷ []
              ]
      ]

  -- The calls of `uploadFiles`
  unfoldable pub upload_callbacks :
      List FileEntry
      → List Batch
      → Option SavedProgress
      → (ℕ → Option Text)
      → Stored
      → List Callback
  upload_callbacks files batches saved filenames storage =
      let page : Page = record {
        confirmed = confirmed_from [] (saved_units env saved);
        gas_used = saved_gas env saved;
        storage = storage;
        sent = [];
      } in
      loop_callbacks files 0 (length batches) batches page
      ++ elim (upload_loop env files batches page) [
        | err stopped ↦ []
        | ok done ↦ manifest_callbacks files filenames done
      ]
