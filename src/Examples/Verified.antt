-- ===== src/Examples/Verified.antt =====
-- A hash that is verified.
use evmfs.Prelude.{ℕ, ◌≡◌, ◌≢◌, ◌↔◌, Option, some, List, [], ◌∷◌}
use evmfs.Prelude.Text.{Text, codes}
use evmfs.Cli.Upload.Command.{address_of, zero_address}
use evmfs.Cli.Verify.{pass, verify_command}
use evmfs.Cli.Verify.Verdict.{IsVerified, verify_command_iff}
use evmfs.Examples.World.{hash}

-- A node with one log, whose data are the bytes themselves.
abbrev logs : Text → Text → Option (List Text)
logs contract content_hash = some ((1 ∷ 2 ∷ []) ∷ [])

abbrev decode : Text → Option (List ℕ)
decode hex_data = some hex_data

verify_command_iff_example :
    (verify_command hash decode logs (some (codes "0xab")) (hash (1 ∷ 2 ∷ [])) ≡ pass) ↔ (
      (address_of (some (codes "0xab")) ≢ zero_address)
      × IsVerified hash decode (hash (1 ∷ 2 ∷ [])) (logs (codes "0xab") (hash (1 ∷ 2 ∷ []))))
verify_command_iff_example =
    verify_command_iff hash decode logs (some (codes "0xab")) (hash (1 ∷ 2 ∷ []))
