-- ===== src/Web/Progress.antt =====
-- web/src/lib/evmfs.ts: the progress that the page keeps in the browser's storage.
pub mod Saved
use evmfs.Prelude.{
  ℕ, ◌+◌, Bool, true, false, ◌&&◌, Option, none, some, List, [], ◌∷◌, map, length, ltb, ◌==◌,
  if◌then◌else◌,
}
use evmfs.Prelude.Text.{Text, text_eq, to_lower}
use evmfs.Cli.Manifest.{ConfirmedChunk}
use evmfs.Web.Units.{FileEntry}

-- `ConfirmedUnit` has the fields of the client's `ConfirmedChunk`.
abbrev pub ConfirmedUnit : Type 0
ConfirmedUnit = ConfirmedChunk

-- `gasUsed` is a number printed with toString and read with BigInt.
pub record SavedProgress : Type 0 where
  pub file_names : List Text
  pub chain_id : ℕ
  pub contract_address : Text
  pub confirmed : List ConfirmedUnit
  pub gas_used : ℕ
  pub saved_at : ℕ

-- An element of the stored `confirmed`, as it is now or from before files were cut into chunks.
pub data SavedUnit : Type 0 where
  unit : ConfirmedUnit → SavedUnit
  legacy : ℕ → Text → ℕ → SavedUnit

pub record StoredProgress : Type 0 where
  pub file_names : List Text
  pub chain_id : ℕ
  pub contract_address : Text
  pub confirmed : List SavedUnit
  pub gas_used : ℕ
  pub saved_at : ℕ

-- The item in localStorage: none, one that JSON.parse or a later step throws on, or progress.
pub data Stored : Type 0 where
  absent : Stored
  unreadable : Stored
  stored : StoredProgress → Stored

-- `saveProgress`; where `setItem` throws, nothing changes.
unfoldable pub save_progress : Bool → SavedProgress → Stored → Stored
save_progress throws p storage =
    if throws
    then storage
    else stored (record {
      file_names = p.file_names;
      chain_id = p.chain_id;
      contract_address = p.contract_address;
      confirmed = map unit p.confirmed;
      gas_used = p.gas_used;
      saved_at = p.saved_at;
    })

unfoldable pub migrated : SavedUnit → ConfirmedUnit
migrated (unit c) = c
migrated (legacy index hash block) = record {
  file_index = index;
  chunk_index = 0;
  total_chunks = 1;
  hash = hash;
  block = block;
}

abbrev pub one_day : ℕ
one_day = 86400000

-- `loadProgress` at the time `now`: the progress, and the storage after it.
unfoldable pub load_progress : ℕ → Stored → Option SavedProgress × Stored
unfolding migrated
load_progress now absent = (none, absent)
load_progress now unreadable = (none, unreadable)
load_progress now (stored p) = if ltb (p.saved_at + one_day) now then (none, absent) else (
  some (record {
    file_names = p.file_names;
    chain_id = p.chain_id;
    contract_address = p.contract_address;
    confirmed = map migrated p.confirmed;
    gas_used = p.gas_used;
    saved_at = p.saved_at;
  }),
  stored p,
)

-- `every((name, i) => name === files[i].name)`, for lists of one length.
unfoldable pub same_names : List Text → List FileEntry → Bool
same_names [] files = true
same_names (name ∷ names) [] = false
same_names (name ∷ names) (f ∷ files) = text_eq name f.name && same_names names files

unfoldable pub progress_matches_files : SavedProgress → List FileEntry → ℕ → Text → Bool
unfolding same_names
progress_matches_files progress files chain_id contract_address =
    (progress.chain_id == chain_id)
    && (text_eq (to_lower progress.contract_address) (to_lower contract_address)
        && ((length progress.file_names == length files) && same_names progress.file_names files))
