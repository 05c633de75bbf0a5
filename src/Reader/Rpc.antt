-- ===== src/Reader/Rpc.antt =====
-- lib/src/rpc.ts: finding the log of a content hash. The node that answers is a parameter.
pub mod Scan
pub mod Found
use evmfs.Prelude.{
  ℕ, zero, suc, ◌+◌, ◌-◌, Bool, true, false, Option, none, some, List, [], ◌∷◌, Result, ok, err,
  ltb, ◌==◌, if◌then◌else◌,
}
use evmfs.Prelude.Text.{Text}
use evmfs.Prelude.ParseInt.{Parsed, nan, number, negative, parse_int}
use evmfs.Reader.Abi.{AbiError, abi_decode_bytes}

abbrev pub max_block_range : ℕ
max_block_range = 50000

pub data RpcError : Type 0 where
  -- `json.error`, or a request that fails
  rpc_error : RpcError
  decode_error : AbiError → RpcError
  no_logs : RpcError
  -- the model's own: the fuel of the scan ran out
  out_of_fuel : RpcError

-- The node: `eth_blockNumber`, and the data of the Store logs of a hash in a range of blocks by
-- `eth_getLogs`; `none` is a request that throws.
pub record Node : Type 0 where
  pub block_number : Option Text
  pub get_logs : Text → ℕ → ℕ → Option (List Text)

abbrev pub decoded : Text → Result RpcError (Option (List ℕ))
decoded hex_data = elim (abi_decode_bytes hex_data) [
  | ok bytes ↦ ok (some bytes)
  | err e ↦ err (decode_error e)
]

-- The logs of a range: none of them, or the first one decoded.
abbrev pub first_log : Option (List Text) → Result RpcError (Option (List ℕ))
first_log none = err rpc_error
first_log (some []) = ok none
first_log (some (hex_data ∷ _)) = decoded hex_data

module _ (node : Node) (content_hash : Text) where
  unfoldable pub fetch_logs_in_range : ℕ → ℕ → Result RpcError (Option (List ℕ))
  fetch_logs_in_range from_block to_block =
      first_log (node.get_logs content_hash from_block to_block)

  -- `Math.max(0, toBlock - MAX_BLOCK_RANGE + 1)`
  abbrev pub range_start : ℕ → ℕ
  range_start to_block = to_block + 1 - max_block_range

  -- The `while` loop, from `to_block` down.
  unfoldable pub scan : ℕ → ℕ → Result RpcError (List ℕ)
  scan zero to_block = err out_of_fuel
  scan (suc fuel) to_block = elim (fetch_logs_in_range (range_start to_block) to_block) [
    | err e ↦ err e
    | ok (some bytes) ↦ ok bytes
    | ok none ↦
        let rest = scan fuel (range_start to_block - 1) in
        if range_start to_block == 0 then err no_logs else rest
  ]

  -- The scan from the latest block; a number that is not read is NaN, and the loop does not run.
  unfoldable pub scan_latest : Parsed → Result RpcError (List ℕ)
  unfolding scan
  scan_latest (number latest) = scan (suc latest) latest
  scan_latest nan = err no_logs
  scan_latest (negative zero) = scan 1 0
  scan_latest (negative (suc n)) = err no_logs

  unfoldable pub scan_back : Option Text → Result RpcError (List ℕ)
  unfolding scan_latest
  scan_back none = err rpc_error
  scan_back (some hex) = scan_latest (parse_int 16 hex)

  -- `fetchContent`: around the hint first, if there is one, and then back from the latest block.
  unfoldable pub fetch_content : Option ℕ → Result RpcError (List ℕ)
  unfolding fetch_logs_in_range scan_back
  fetch_content none = scan_back node.block_number
  fetch_content (some zero) = scan_back node.block_number
  fetch_content (some (suc hint)) = elim (fetch_logs_in_range hint (suc (suc hint))) [
    | err e ↦ err e
    | ok (some bytes) ↦ ok bytes
    | ok none ↦ scan_back node.block_number
  ]
