-- ===== src/Cli/Upload/Command.antt =====
-- cli/src/upload.ts: `uploadCommand` and `deployCommand`. What the outside world does is a parameter:
-- the folder, the answer to the prompt, gzip, keccak256 and the transactions.
pub mod Faithful
pub mod Run
pub mod Resumption
pub mod Failure
use mathlib.Core.Option
use evmfs.Prelude.{
  ℕ, zero, suc, ◌+◌, Bool, true, false, ◌&&◌, ◌||◌, not, Option, none, some, List, [], ◌∷◌, ◌++◌,
  map, keep, any, length, ◌==◌, Result, ok, err, if◌then◌else◌,
}
use evmfs.Prelude.Text.{Text, codes, text_eq, text_leb, to_lower, truthy}
use evmfs.Prelude.Digits.{decimal}
use evmfs.Prelude.ParseInt.{Parsed, nan, number, negative, parse_int}
use evmfs.Prelude.Sort.{sort}
use evmfs.Contract.{Call, store_manifest}
use evmfs.Cli.Batch.{FileEntry, UploadUnit, Batch, expand_files_to_units, pack_batches}
use evmfs.Cli.Manifest.{
  ManifestEntry, LocalEntry, ConfirmedChunk, UploadState, SavedFile, build_manifest, local_manifest,
  load_upload_state, save_upload_state,
}
use evmfs.Cli.BlockIndex.{Registration, is_v2_contract, register_in_block_index}
use evmfs.Cli.Upload.Folder.{Nodes, list_files, walk_directory, file_entries}
use evmfs.Cli.Upload.Resume.{discard_stale, remaining_units}
use evmfs.Cli.Upload.Send.{
  LogEntry, store_log, other_log, Reply, failed, receipt, World, send_batches,
}
use evmfs.Cli.Upload.Assemble.{assemble}

-- `UploadOptions` and `DeployOptions`, as far as the commands read them.
pub record UploadOptions : Type 0 where
  pub folder : Text
  pub chain_id : Text
  pub contract : Option Text
  pub gas_limit : Text
  pub gateway : Text
  pub block_index : Option Text
  pub no_block_index : Bool

pub record Env : Type 0 where
  pub keccak256 : List ℕ → Text
  pub gzip : List ℕ → List ℕ
  pub gzip_text : Text → List ℕ
  pub submit : ℕ → Call → Reply
  pub register : Text → Text → ℕ → Result Text Bool
  pub answer : Text

pub data Exit : Type 0 where
  invalid_folder : Exit
  no_contract : Exit
  no_files : Exit
  already_complete : Exit
  cancelled : Exit
  batch_error : Exit
  missing_chunks : ℕ → Exit
  manifest_error : Exit
  done : Exit

-- How a command ends, and what it has written: `local` is manifest.json.
pub record Outcome : Type 0 where
  pub exit : Exit
  pub world : World
  pub local : Option (List (Text × LocalEntry))
  pub registration : Option Registration

abbrev pub stop : Exit → World → Outcome
stop exit w = record { exit = exit; world = w; local = none; registration = none }

-- The limit as `packBatches` compares with it: NaN, or a number that is at least 0.
abbrev pub limit_of : Parsed → Option ℕ
limit_of nan = none
limit_of (number n) = some n
limit_of (negative n) = some 0

-- `state.manifestHash` after the loop over the receipt's logs: the last Store event's hash.
unfoldable pub manifest_hash_from : Option Text → List LogEntry → Option Text
manifest_hash_from hash [] = hash
manifest_hash_from hash (store_log h ∷ logs) = manifest_hash_from (some h) logs
manifest_hash_from hash (other_log ∷ logs) = manifest_hash_from hash logs

module _ (env : Env) (options : UploadOptions) (include_filenames : Bool) where
  -- The registration, where the contract is not V2 and the option does not turn it off.
  unfoldable pub registration_for : Option Text → ℕ → Option Registration
  registration_for none block = none
  registration_for (some hash) block =
      if not options.no_block_index && (truthy (some hash) && not (is_v2_contract options.contract))
      then some
          (register_in_block_index env.register options.chain_id hash block options.block_index)
      else none

  -- The world after the manifest's receipt.
  abbrev pub with_manifest : World → Call → List LogEntry → World
  with_manifest w call logs =
      let state = record w.state {
        manifest_hash = manifest_hash_from w.state.manifest_hash logs;
      } in
      record w { state = state; saved = some (save_upload_state state); sent = w.sent ++ call ∷ [] }

  -- The transaction of the manifest, the `i`th of the run; with no receipt an exception ends the run.
  unfoldable pub send_manifest : ℕ → List ManifestEntry → World → Outcome
  unfolding manifest_hash_from registration_for
  send_manifest i entries w =
      let call = store_manifest (build_manifest env.gzip_text entries include_filenames).1 in
      elim (env.submit i call) [
        | failed ↦ stop manifest_error (record w { sent = w.sent ++ call ∷ [] })
        | receipt block logs ↦
            let w' = with_manifest w call logs in
            record {
              exit = done;
              world = w';
              local = some (local_manifest entries);
              registration = registration_for w'.state.manifest_hash block;
            }
      ]

  -- What follows the batches: the manifest is made and sent unless the state has its hash.
  unfoldable pub upload_manifest : ℕ → List FileEntry → World → Outcome
  unfolding send_manifest
  upload_manifest i files w =
      if truthy w.state.manifest_hash
      then stop done w
      else elim (assemble (map (λ f. f.filename) files) (expand_files_to_units files)
          w.state.chunks) [
            | err missing ↦ stop (missing_chunks missing) w
            | ok entries ↦ send_manifest i entries w
          ]

  -- After the prompt: the batches, and then the manifest.
  unfoldable pub upload_batches : List FileEntry → List Batch → World → Outcome
  unfolding upload_manifest
  upload_batches files batches w = elim (send_batches env.keccak256 env.submit 0 batches w) [
    | err w' ↦ stop batch_error w'
    | ok w' ↦ upload_manifest (length batches) files w'
  ]

  is_done : List UploadUnit → UploadState → Bool
  is_done [] state = truthy state.manifest_hash
  is_done (_ ∷ _) state = false

  -- From the files and the state that was loaded.
  unfoldable pub upload_from : List FileEntry → Option SavedFile → UploadState → Outcome
  unfolding upload_batches is_done
  upload_from files saved loaded =
      let units = expand_files_to_units files in
      let state = discard_stale units loaded in
      let remaining = remaining_units units state in
      let w : World = record { state = state; saved = saved; sent = [] } in
      if is_done remaining state
      then stop already_complete w
      else if text_eq (to_lower env.answer) (codes "y")
      then upload_batches files (pack_batches remaining (limit_of (parse_int 10 options.gas_limit)))
          w
      else stop cancelled w

abbrev pub zero_address : Text
zero_address = codes "0x0000000000000000000000000000000000000000"

-- `options.contract ?? zero address`
abbrev pub address_of : Option Text → Text
address_of none = zero_address
address_of (some contract) = contract

abbrev pub fresh_state : UploadOptions → UploadState
fresh_state options = record {
  folder = options.folder;
  contract_address = address_of options.contract;
  chain_id = options.chain_id;
  chunks = [];
  manifest_hash = none;
}

abbrev state_or : UploadState → Option UploadState → UploadState
state_or fresh none = fresh
state_or fresh (some state) = state

abbrev nothing_sent : UploadOptions → Option SavedFile → World
nothing_sent options saved = record { state = fresh_state options; saved = saved; sent = [] }

-- The tests before the state is read: the folder, the contract, and that there are files.
abbrev pub checked :
    UploadOptions
    → Option SavedFile
    → Option (List (Text × List ℕ))
    → (List (Text × List ℕ) → Outcome)
    → Outcome
checked options saved none run = stop invalid_folder (nothing_sent options saved)
checked options saved (some []) run =
    if text_eq (address_of options.contract) zero_address
    then stop no_contract (nothing_sent options saved)
    else stop no_files (nothing_sent options saved)
checked options saved (some (f ∷ files)) run =
    if text_eq (address_of options.contract) zero_address
    then stop no_contract (nothing_sent options saved)
    else run (f ∷ files)

-- `uploadCommand`, over the folder, `none` if it is no directory, and the progress file.
pub upload_command : Env → UploadOptions → Option Nodes → Option SavedFile → Outcome
unfolding list_files
upload_command env options folder saved =
    checked options saved (Option.map list_files folder) (λ files.
      upload_from env options false (file_entries env.gzip 0 files) saved
        (state_or (fresh_state options) (load_upload_state saved)))

-- `deployCommand`: paths below the folder, a progress file of its own that is read as it stands, and
-- file names in the manifest.
pub deploy_command : Env → UploadOptions → Option Nodes → Option UploadState → Outcome
unfolding walk_directory
deploy_command env options folder state =
    let saved = Option.map save_upload_state state in
    checked options saved (Option.map walk_directory folder) (λ files.
      upload_from env options true (file_entries env.gzip 0 files) saved
        (state_or (fresh_state options) state))

-- `state.chunks.length > 0 ? state.chunks[0].block : 0`
abbrev pub first_block : List ConfirmedChunk → ℕ
first_block [] = 0
first_block (c ∷ chunks) = c.block

-- `${state.manifestHash}`
abbrev shown_hash : Option Text → Text
shown_hash none = codes "undefined"
shown_hash (some hash) = hash

-- The base URI that `printResult`, and as the site's URL `printDeployResult`, print.
pub base_uri : UploadOptions → UploadState → Text
unfolding decimal
base_uri options state =
    options.gateway
    ++ codes "/"
    ++ options.chain_id
    ++ codes "/"
    ++ decimal (first_block state.chunks)
    ++ codes "/"
    ++ shown_hash state.manifest_hash
    ++ codes "/"
