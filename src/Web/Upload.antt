-- ===== src/Web/Upload.antt =====
-- web/src/lib/evmfs.ts, `uploadFiles`: sending the batches with retries, and then the manifest. The
-- wallet, the chain, gzip, the clock and the browser's storage are parameters.
pub mod Cases
pub mod Kept
pub mod Completed
pub mod Faithful
pub mod Listed
pub mod Keyed
pub mod Retries
pub mod Confirmed
use evmfs.Prelude.{
  ℕ, zero, suc, ◌+◌, Bool, true, false, ◌&&◌, not, Option, none, some, List, [], ◌∷◌, ◌++◌, map,
  length, Result, ok, err, ◌>>=◌, if◌then◌else◌,
}
use evmfs.Prelude.Text.{Text, codes, text_eq, to_lower, truthy}
use evmfs.Prelude.Digits.{decimal}
use evmfs.Contract.{Call, store, store_batch, store_manifest}
use evmfs.Cli.Manifest.{manifest_json}
use evmfs.Cli.BlockIndex.{is_v2_contract, get_block_index_address}
use evmfs.Cli.Upload.Resume.{chunk_key}
use evmfs.Web.Units.{FileEntry, UploadUnit, Batch, read_unit}
use evmfs.Web.Progress.{ConfirmedUnit, SavedProgress, Stored, absent, save_progress}
use evmfs.Web.ConfirmedMap.{
  ConfirmedMap, compute_confirmed_key, set_unit, unit_values, confirmed_from, confirmed_unit,
  all_confirmed,
}
use evmfs.Web.Manifest.{build_manifest_entries}

-- A log: its address and `topics[1]`.
pub record PageLog : Type 0 where
  pub address : Text
  pub topic : Option Text

-- What comes of a transaction: an exception, a reverted receipt, or one with block, gas and logs.
pub data PageReply : Type 0 where
  failed : PageReply
  reverted : PageReply
  mined : ℕ → ℕ → List PageLog → PageReply

-- `submit n call` answers the transaction that is sent as the `n`th.
pub record PageEnv : Type 0 where
  pub keccak256 : List ℕ → Text
  pub gzip_text : Text → List ℕ
  pub submit : ℕ → Call → PageReply
  pub clock : ℕ → ℕ
  pub storage_throws : Bool
  pub contract_address : Text
  pub chain_id : ℕ
  pub gateway_url : Text

-- What a run changes.
pub record Page : Type 0 where
  pub confirmed : ConfirmedMap
  pub gas_used : ℕ
  pub storage : Stored
  pub sent : List Call

pub data PageError : Type 0 where
  batch_failed : PageError
  missing_units : ℕ → PageError
  manifest_failed : PageError

-- How a run that completes ends; `registration` is what it asks the block index to register.
pub record Uploaded : Type 0 where
  pub manifest_hash : Text
  pub base_uri : Text
  pub confirmed : List ConfirmedUnit
  pub page : Page
  pub registration : Option (Text × ℕ)

abbrev pub batch_retries : ℕ
batch_retries = 3

unfoldable pub call_of : List UploadUnit → Call
call_of (u ∷ []) = store (read_unit u)
call_of units = store_batch (map read_unit units)

module _ (env : PageEnv) where
  -- The content hash of a log of the contract.
  unfoldable pub own_topic : PageLog → Option Text
  own_topic log =
      if text_eq (to_lower log.address) (to_lower env.contract_address) && truthy log.topic
      then log.topic
      else none

  -- `hashMap.get(hash)`: of two units with one hash the later one is found.
  unfoldable pub unit_of_hash : List UploadUnit → Text → Option UploadUnit
  unit_of_hash [] hash = none
  unit_of_hash (u ∷ units) hash = elim (unit_of_hash units hash) [
    | some later ↦ some later
    | none ↦ if text_eq (env.keccak256 (read_unit u)) hash then some u else none
  ]

  -- One log of a batch's receipt.
  unfoldable pub confirm_log : List UploadUnit → ℕ → PageLog → ConfirmedMap → ConfirmedMap
  unfolding own_topic unit_of_hash
  confirm_log units block log m = elim (own_topic log) [
    | none ↦ m
    | some hash ↦ elim (unit_of_hash units hash) [
      | none ↦ m
      | some u ↦ set_unit (compute_confirmed_key u) (confirmed_unit hash block u) m
    ]
  ]

  unfoldable pub confirm_logs : List UploadUnit → ℕ → List PageLog → ConfirmedMap → ConfirmedMap
  confirm_logs units block [] m = m
  confirm_logs units block (log ∷ logs) m =
      confirm_logs units block logs (confirm_log units block log m)

  -- What `saveProgress` is given.
  abbrev pub progress_of : List FileEntry → ConfirmedMap → ℕ → ℕ → SavedProgress
  progress_of files m gas_used now = record {
    file_names = map (λ f. f.name) files;
    chain_id = env.chain_id;
    contract_address = env.contract_address;
    confirmed = unit_values m;
    gas_used = gas_used;
    saved_at = now;
  }

  abbrev pub sending : Page → Call → Page
  sending page call = record page { sent = page.sent ++ call ∷ [] }

  -- The page after the receipt of a batch.
  unfoldable pub record_mined :
      List FileEntry → List UploadUnit → ℕ → ℕ → List PageLog → Page → Page
  unfolding confirm_logs save_progress
  record_mined files units block gas logs page =
      let m = confirm_logs units block logs page.confirmed in
      let p = progress_of files m (page.gas_used + gas) (env.clock (length page.sent)) in
      record page {
        confirmed = m;
        gas_used = page.gas_used + gas;
        storage = save_progress env.storage_throws p page.storage;
        sent = page.sent ++ call_of units ∷ [];
      }

  -- The attempts at a batch; with none left the error is thrown.
  unfoldable pub attempt_batch : List FileEntry → List UploadUnit → ℕ → Page → Result Page Page
  unfolding record_mined
  attempt_batch files units zero page = err page
  attempt_batch files units (suc left) page = elim (env.submit (length page.sent) (call_of units)) [
    | failed ↦ attempt_batch files units left (sending page (call_of units))
    | reverted ↦ attempt_batch files units left (sending page (call_of units))
    | mined block gas logs ↦ ok (record_mined files units block gas logs page)
  ]

  -- One round of the loop over the batches: a batch that is confirmed is skipped.
  unfoldable pub upload_batch : List FileEntry → Batch → Page → Result Page Page
  unfolding attempt_batch all_confirmed
  upload_batch files batch page =
      if all_confirmed page.confirmed batch.units
      then ok page
      else attempt_batch files batch.units batch_retries page

  unfoldable pub upload_loop : List FileEntry → List Batch → Page → Result Page Page
  unfolding upload_batch
  upload_loop files [] page = ok page
  upload_loop files (batch ∷ batches) page = elim (upload_batch files batch page) [
    | err failed_page ↦ err failed_page
    | ok next ↦ upload_loop files batches next
  ]

  -- The hash of the last log of the contract.
  unfoldable pub page_manifest_hash : Text → List PageLog → Text
  unfolding own_topic
  page_manifest_hash hash [] = hash
  page_manifest_hash hash (log ∷ logs) = elim (own_topic log) [
    | none ↦ page_manifest_hash hash logs
    | some h ↦ page_manifest_hash h logs
  ]

  -- Whether the manifest is registered in the block index, for a chain that has one and not on V2.
  unfoldable pub page_registration : Text → ℕ → Option (Text × ℕ)
  page_registration hash block = elim (get_block_index_address (decimal env.chain_id) none) [
    | none ↦ none
    | some index ↦ if is_v2_contract (some env.contract_address) then none else some (hash, block)
  ]

  abbrev pub page_base_uri : ℕ → Text → Text
  page_base_uri block hash =
      env.gateway_url
      ++ codes "/"
      ++ decimal env.chain_id
      ++ codes "/"
      ++ decimal block
      ++ codes "/"
      ++ hash
      ++ codes "/"

  -- After the manifest's receipt the saved progress is cleared.
  unfoldable pub uploaded_with : Page → Call → ℕ → ℕ → List PageLog → Uploaded
  unfolding page_manifest_hash page_registration
  uploaded_with page call block gas logs =
      let hash = page_manifest_hash [] logs in
      record {
        manifest_hash = hash;
        base_uri = page_base_uri block hash;
        confirmed = unit_values page.confirmed;
        page = record page {
          gas_used = page.gas_used + gas;
          storage = absent;
          sent = page.sent ++ call ∷ [];
        };
        registration = page_registration hash block;
      }

  unfoldable pub upload_manifest_with :
      List FileEntry → (ℕ → Option Text) → Page → Result PageError Uploaded
  unfolding uploaded_with
  upload_manifest_with files filenames page =
      elim (build_manifest_entries (length files) (unit_values page.confirmed) filenames) [
        | err i ↦ err (missing_units i)
        | ok entries ↦
            let call = store_manifest (env.gzip_text (manifest_json entries)) in
            elim (env.submit (length page.sent) call) [
              | failed ↦ err manifest_failed
              | reverted ↦ err manifest_failed
              | mined block gas logs ↦ ok (uploaded_with page call block gas logs)
            ]
      ]

  abbrev pub saved_units : Option SavedProgress → List ConfirmedUnit
  saved_units none = []
  saved_units (some p) = p.confirmed

  abbrev pub saved_gas : Option SavedProgress → ℕ
  saved_gas none = 0
  saved_gas (some p) = p.gas_used

  -- `uploadFiles`
  unfoldable pub upload_files :
      List FileEntry
      → List Batch
      → Option SavedProgress
      → (ℕ → Option Text)
      → Stored
      → Result PageError Uploaded
  unfolding confirmed_from upload_loop upload_manifest_with
  upload_files files batches saved filenames storage =
      let page : Page = record {
        confirmed = confirmed_from [] (saved_units saved);
        gas_used = saved_gas saved;
        storage = storage;
        sent = [];
      } in
      elim (upload_loop files batches page) [
        | err failed_page ↦ err batch_failed
        | ok done ↦ upload_manifest_with files filenames done
      ]
