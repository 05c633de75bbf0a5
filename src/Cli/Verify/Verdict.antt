-- ===== src/Cli/Verify/Verdict.antt =====
-- cli/src/verify.ts: when the command prints PASS.
use evmfs.Prelude.{
  ℕ, ◌≡◌, ◌≢◌, ◌↔◌, refl, inl, inr, true, Option, none, some, List, [], ◌∷◌, Bool-cases,
  Option-cases,
}
use evmfs.Prelude.Text.{Text, text_eq, text_eq_iff}
use evmfs.Cli.Upload.Command.{address_of, zero_address}
use evmfs.Cli.Verify.{pass, verify_logs, verify_command}

module _ (keccak256 : List ℕ → Text) (decode : Text → Option (List ℕ)) where
  -- The first log decodes to bytes of the hash.
  pub record IsVerified (hash : Text) (logs : Option (List Text)) : Type 0 where
    pub hex_data : Text
    pub others : List Text
    pub first : logs ≡ some (hex_data ∷ others)
    pub raw : List ℕ
    pub decodes : decode hex_data ≡ some raw
    pub same : keccak256 raw ≡ hash

  IsVerified-verify_logs :
      (hash hex_data : Text) (others : List Text)
      → verify_logs keccak256 decode hash (some (hex_data ∷ others)) ≡ pass
      → IsVerified hash (some (hex_data ∷ others))
  unfolding verify_logs
  IsVerified-verify_logs hash hex_data others h = elim (Option-cases (decode hex_data)) [
    | inl e ↦ let h' = rw (e, verify_logs) at h in cc
    | inr (raw, e) ↦ elim (Bool-cases (text_eq (keccak256 raw) hash)) [
      | inr differ ↦ let h' = rw (e, differ, verify_logs) at h in cc
      | inl same ↦ record {
        hex_data = hex_data;
        others = others;
        first = refl;
        raw = raw;
        decodes = e;
        same = (text_eq_iff (keccak256 raw) hash).0 same;
      }
    ]
  ]

  verify_logs-IsVerified :
      (hash : Text) (logs : Option (List Text))
      → verify_logs keccak256 decode hash logs ≡ pass
      → IsVerified hash logs
  unfolding verify_logs
  verify_logs-IsVerified hash none h = cc
  verify_logs-IsVerified hash (some []) h = cc
  verify_logs-IsVerified hash (some (hex_data ∷ others)) h =
      IsVerified-verify_logs hash hex_data others h

  pass-of_IsVerified :
      (hash : Text) (logs : Option (List Text))
      → IsVerified hash logs
      → verify_logs keccak256 decode hash logs ≡ pass
  unfolding verify_logs
  pass-of_IsVerified hash logs v =
      let matched : text_eq (keccak256 v.raw) hash ≡ true =
        (text_eq_iff (keccak256 v.raw) hash).1 v.same in
      rw (v.first, verify_logs) (rw (v.decodes, matched, verify_logs))

  -- The command prints PASS exactly when a contract is given, the node answers with a log of the hash,
  -- and the first log decodes to bytes that have the hash.
  pub verify_command_iff :
      (get_logs : Text → Text → Option (List Text)) (contract : Option Text) (hash : Text)
      → (verify_command keccak256 decode get_logs contract hash ≡ pass) ↔ (
          (address_of contract ≢ zero_address)
          × IsVerified hash (get_logs (address_of contract) hash))
  unfolding verify_command
  verify_command_iff get_logs contract hash =
      elim (Bool-cases (text_eq (address_of contract) zero_address)) [
        | inl zero ↦ (
          λ h. let h' = rw zero at h in cc,
          λ h. absurd (h.0 ((text_eq_iff (address_of contract) zero_address).0 zero)),
        )
        | inr given ↦ (
          λ h. (
            λ e. let t = (text_eq_iff (address_of contract) zero_address).1 e in cc,
            verify_logs-IsVerified hash (get_logs (address_of contract) hash) (rw given at h),
          ),
          λ h. rw given (pass-of_IsVerified hash (get_logs (address_of contract) hash) h.1),
        )
      ]
