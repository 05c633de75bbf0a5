-- ===== src/Cli/Upload/Send.antt =====
-- cli/src/upload.ts: the loop that sends the batches and records what the receipts confirm.
pub mod Receipts
pub mod Distinct
pub mod Progress
use evmfs.Prelude.{
  ℕ, suc, Bool, true, false, Option, none, some, List, [], ◌∷◌, ◌++◌, map, Result, ok, err,
  if◌then◌else◌,
}
use evmfs.Prelude.Text.{Text, text_eq}
use evmfs.Contract.{Call, store, store_batch}
use evmfs.Cli.Batch.{UploadUnit, Batch}
use evmfs.Cli.Manifest.{ConfirmedChunk, UploadState, SavedFile, save_upload_state}

-- A log as `parseLog` gives it: the content hash of a Store event, or something else.
pub data LogEntry : Type 0 where
  store_log : Text → LogEntry
  other_log : LogEntry

-- What comes of a transaction: an exception or no receipt, or a receipt with its block and logs.
pub data Reply : Type 0 where
  failed : Reply
  receipt : ℕ → List LogEntry → Reply

-- What the run writes: the progress in memory, the progress file, and the transactions.
pub record World : Type 0 where
  pub state : UploadState
  pub saved : Option SavedFile
  pub sent : List Call

-- `contract.store(dataArrays[0])` for one unit, `contract.storeBatch(dataArrays)` for several.
unfoldable pub batch_call : List UploadUnit → Call
batch_call (u ∷ []) = store u.bytes
batch_call units = store_batch (map (λ u. u.bytes) units)

abbrev pub confirm : Text → ℕ → UploadUnit → ConfirmedChunk
confirm hash block u = record {
  file_index = u.file_index;
  chunk_index = u.chunk_index;
  total_chunks = u.total_chunks;
  hash = hash;
  block = block;
}

-- `console.error`, `saveUploadState` and `process.exit(1)`: the world that the failed run leaves.
abbrev pub abandon : World → Call → World
abandon w call = record w { saved = some (save_upload_state w.state); sent = w.sent ++ call ∷ [] }

module _ (keccak256 : List ℕ → Text) where
  -- `new Map(batch.units.map(…)).get(hash)`: of two units with one hash the later one is found.
  unfoldable pub hash_to_unit : List UploadUnit → Text → Option UploadUnit
  hash_to_unit [] hash = none
  hash_to_unit (u ∷ units) hash = elim (hash_to_unit units hash) [
    | some later ↦ some later
    | none ↦ if text_eq (keccak256 u.bytes) hash then some u else none
  ]

  -- The chunks that the logs of one receipt confirm.
  unfoldable pub confirmed_by : List UploadUnit → ℕ → List LogEntry → List ConfirmedChunk
  unfolding hash_to_unit
  confirmed_by units block [] = []
  confirmed_by units block (other_log ∷ logs) = confirmed_by units block logs
  confirmed_by units block (store_log hash ∷ logs) =
      let later = confirmed_by units block logs in
      elim (hash_to_unit units hash) [ none ↦ later | some u ↦ confirm hash block u ∷ later ]

  -- The world after a receipt: chunks are pushed, and the progress is saved.
  unfoldable pub record_receipt : Batch → ℕ → List LogEntry → World → World
  unfolding confirmed_by
  record_receipt batch block logs w =
      let state = record w.state {
        chunks = w.state.chunks ++ confirmed_by batch.units block logs;
      } in
      record w {
        state = state;
        saved = some (save_upload_state state);
        sent = w.sent ++ batch_call batch.units ∷ [];
      }

  -- The loop over the batches from index `i`; `err` is the run that exits in its `catch`.
  unfoldable pub send_batches : (ℕ → Call → Reply) → ℕ → List Batch → World → Result World World
  unfolding record_receipt batch_call
  send_batches submit i [] w = ok w
  send_batches submit i (batch ∷ batches) w = elim (submit i (batch_call batch.units)) [
    | failed ↦ err (abandon w (batch_call batch.units))
    | receipt block logs ↦ send_batches submit (suc i) batches (record_receipt batch block logs w)
  ]
