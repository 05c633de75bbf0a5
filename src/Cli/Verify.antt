-- ===== src/Cli/Verify.antt =====
-- cli/src/verify.ts: `verifyCommand`, up to the line that says PASS or FAIL. The node, the ABI decoder of
-- ethers and keccak256 are parameters.
pub mod Verdict
use evmfs.Prelude.{Option, none, some, ℕ, List, [], ◌∷◌, if◌then◌else◌}
use evmfs.Prelude.Text.{Text, text_eq}
use evmfs.Cli.Upload.Command.{address_of, zero_address}

pub data VerifyExit : Type 0 where
  no_contract : VerifyExit
  no_event : VerifyExit
  uncaught : VerifyExit
  pass : VerifyExit
  fail : VerifyExit

module _ (keccak256 : List ℕ → Text) (decode : Text → Option (List ℕ)) where
  abbrev verify_bytes : Text → Option (List ℕ) → VerifyExit
  verify_bytes hash none = uncaught
  verify_bytes hash (some raw) = if text_eq (keccak256 raw) hash then pass else fail

  -- From the logs of the hash in all blocks, of which `fetchLog` gives the first; `none` is an exception.
  unfoldable pub verify_logs : Text → Option (List Text) → VerifyExit
  verify_logs hash none = uncaught
  verify_logs hash (some []) = no_event
  verify_logs hash (some (hex_data ∷ _)) = verify_bytes hash (decode hex_data)

  unfoldable pub verify_command :
      (Text → Text → Option (List Text)) → Option Text → Text → VerifyExit
  unfolding verify_logs
  verify_command get_logs contract hash =
      if text_eq (address_of contract) zero_address
      then no_contract
      else verify_logs hash (get_logs (address_of contract) hash)
