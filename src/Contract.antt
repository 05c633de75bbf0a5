-- ===== src/Contract.antt =====
-- contracts/src/EVMFS.sol: the contract that the clients call. `keccak256`, which the EVM provides,
-- is a parameter.
pub mod Names
pub mod Registry
use evmfs.Prelude.{ℕ, List, [], ◌∷◌, Option, none, some, if◌then◌else◌, map}
use evmfs.Prelude.Text.{Text, text_eq}

-- `event Store(bytes32 indexed contentHash, bytes data)`
pub record StoreEvent : Type 0 where
  pub content_hash : Text
  pub bytes : List ℕ

pub data Call : Type 0 where
  store : List ℕ → Call
  store_batch : List (List ℕ) → Call
  store_manifest : List ℕ → Call

-- `mapping(bytes32 => address) manifests`, the latest write first.
pub record Evmfs : Type 0 where
  pub manifests : List (Text × Text)

unfoldable pub uploader_in : List (Text × Text) → Text → Option Text
uploader_in [] hash = none
uploader_in ((h, sender) ∷ rest) hash =
    if text_eq h hash then some sender else uploader_in rest hash

module _ (keccak256 : List ℕ → Text) where
  abbrev pub store_event : List ℕ → StoreEvent
  store_event bytes = record { content_hash = keccak256 bytes; bytes = bytes }

  -- The events of a call.
  unfoldable pub events : Call → List StoreEvent
  events (store bytes) = store_event bytes ∷ []
  events (store_batch items) = map store_event items
  events (store_manifest bytes) = store_event bytes ∷ []

  -- The storage after a call from `sender`.
  unfoldable pub storage : Text → Evmfs → Call → Evmfs
  storage sender c (store bytes) = c
  storage sender c (store_batch items) = c
  storage sender c (store_manifest bytes) = record c {
    manifests = (keccak256 bytes, sender) ∷ c.manifests;
  }
