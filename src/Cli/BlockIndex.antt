-- ===== src/Cli/BlockIndex.antt =====
-- cli/src/blockIndex.ts: the block index beside a V1 contract.
use evmfs.Prelude.{
  ℕ, Bool, true, false, ◌||◌, Option, none, some, List, [], ◌∷◌, Result, ok, err, ◌==◌, ◌&&◌,
  if◌then◌else◌,
}
use evmfs.Prelude.Text.{Text, codes, text_eq, to_lower}

abbrev pub evmfs_v2_address : Text
evmfs_v2_address = codes "0xb61cdCDC81d97c32122E668AE782b2327d0a623C"

-- `isV2Contract`; the empty address is falsy.
unfoldable pub is_v2_contract : Option Text → Bool
is_v2_contract none = false
is_v2_contract (some []) = false
is_v2_contract (some (c ∷ addr)) = text_eq (to_lower (c ∷ addr)) (to_lower evmfs_v2_address)

abbrev pub default_block_index : List (Text × Text)
default_block_index =
    (codes "1", codes "0x85fce8503683a76371568f2f1347cf2c85dddc39")
    ∷ (codes "143", codes "0x2b62d34557e7cb8cb31dc83d2132396d0ef5cad0")
    ∷ []

abbrev find : Text → List (Text × Text) → Option Text
find key [] = none
find key ((k, v) ∷ rest) = if text_eq k key then some v else find key rest

unfoldable pub get_block_index_address : Text → Option Text → Option Text
get_block_index_address chain_id (some (c ∷ override)) = some (c ∷ override)
get_block_index_address chain_id _ = find chain_id default_block_index

-- `s.startsWith(t)` and `s.includes(t)`
abbrev pub starts_with : Text → Text → Bool
starts_with s [] = true
starts_with [] (_ ∷ _) = false
starts_with (a ∷ s) (b ∷ t) = (a == b) && starts_with s t

abbrev pub includes : Text → Text → Bool
includes [] t = starts_with [] t
includes (a ∷ s) t = starts_with (a ∷ s) t || includes s t

-- `msg.split("\n")[0]`
abbrev pub first_line : Text → Text
first_line [] = []
first_line (c ∷ s) = if c == 10 then [] else c ∷ first_line s

-- What the attempt logs.
pub data Registration : Type 0 where
  unconfigured : Registration
  registered : Registration
  no_receipt : Registration
  already_registered : Registration
  not_uploader : Registration
  unknown_manifest : Registration
  skipped : Text → Registration

unfoldable pub registration_of : Result Text Bool → Registration
registration_of (ok true) = registered
registration_of (ok false) = no_receipt
registration_of (err msg) =
    if includes msg (codes "AlreadyIndexed")
    then already_registered
    else if includes msg (codes "NotManifestUploader")
    then not_uploader
    else if includes msg (codes "UnknownManifest")
    then unknown_manifest
    else skipped (first_line msg)

-- `registerInBlockIndex`, over what the call of `register` at an address does: whether there was a
-- receipt, or the message of the exception.
unfoldable pub register_in_block_index :
    (Text → Text → ℕ → Result Text Bool) → Text → Text → ℕ → Option Text → Registration
unfolding registration_of get_block_index_address
register_in_block_index register chain_id manifest_hash block_number override =
    elim (get_block_index_address chain_id override) [
      | none ↦ unconfigured
      | some addr ↦ registration_of (register addr manifest_hash block_number)
    ]
