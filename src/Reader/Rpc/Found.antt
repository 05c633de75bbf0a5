-- ===== src/Reader/Rpc/Found.antt =====
-- lib/src/rpc.ts, `fetchContent`: the hint and the scan together.
use evmfs.Prelude.{
  ℕ, zero, suc, ◌-◌, ◌*◌, ◌≤◌, ◌<◌, ◌≡◌, ◌≢◌, refl, sym, ◌∙◌, ap, subst, inl, inr, Option, none,
  some, List, [], ◌∷◌, ◌==◌, Bool-cases, Result, ok, err, arith,
}
use evmfs.Prelude.Text.{Text, text_eq_sound}
use evmfs.Prelude.ParseInt.{number, parse_int}
use evmfs.Prelude.Member.{In, In-keep}
use evmfs.Reader.Abi.{abi_decode_bytes}
use evmfs.Reader.Rpc.{
  no_logs, out_of_fuel, Node, first_log, fetch_logs_in_range, range_start, scan, scan_latest,
  scan_back, fetch_content,
}
use evmfs.Reader.Rpc.Scan.{
  LoggedEvent, in_range, logs_in, Serves, first_of_logs, fetch-eq, first_of_logs-cases, scan-finds,
}

module _ (node : Node) (hash : Text) where
  fetch_ne_fuel : (answer : Option (List Text)) → first_log answer ≢ err out_of_fuel
  fetch_ne_fuel none h = cc
  fetch_ne_fuel (some []) h = cc
  fetch_ne_fuel (some (x ∷ rest)) h = decoded-cases (abi_decode_bytes x) refl
    where
      decoded-cases : (r : Result _ (List ℕ)) → abi_decode_bytes x ≡ r → ⊥
      decoded-cases (ok bytes) e = cc
      decoded-cases (err a) e = cc

  -- With fuel for every range of 50,000 blocks the scan does not run out of it, whatever the node
  -- answers.
  pub scan-ne-out_of_fuel :
      (fuel to : ℕ) → to < fuel * 50000 → scan node hash fuel to ≢ err out_of_fuel
  unfolding scan fetch_logs_in_range
  scan-ne-out_of_fuel zero to f = absurd (omega arith)
  scan-ne-out_of_fuel (suc fuel) to f = ground (
    arith,
    fetch_ne_fuel (node.get_logs hash (range_start node hash to) to),
    scan-ne-out_of_fuel fuel (range_start node hash to - 1),
  )

module _ (node : Node) (events : List LoggedEvent) (serves : Serves node events) (hash : Text) where
  absent_range :
      (from to : ℕ)
      → ((e : LoggedEvent) → In e events → e.hash ≡ hash → to < e.block)
      → fetch_logs_in_range node hash from to ≡ ok none
  unfolding first_of_logs
  absent_range from to h = go (logs_in hash from to events) refl
    where
      go :
          (found : List LoggedEvent)
          → logs_in hash from to events ≡ found
          → fetch_logs_in_range node hash from to ≡ ok none
      go [] e =
          fetch-eq node events serves hash from to ∙ ap (first_of_logs node events serves hash) e
      go (x ∷ rest) e =
          let (listed, matches) =
            (In-keep (in_range hash from to) x events).0 (subst (In x) (sym e) (inl refl)) in
          let later = h x listed (text_eq_sound x.hash hash (ground arith)) in absurd (ground arith)

  -- Let the node serve the logs. If no log of the hash stands at or below `to`, the scan, with fuel
  -- for every range of 50,000 blocks, ends with the error for that.
  pub scan-no_logs :
      (fuel to : ℕ)
      → to < fuel * 50000
      → ((e : LoggedEvent) → In e events → e.hash ≡ hash → to < e.block)
      → scan node hash fuel to ≡ err no_logs
  unfolding scan
  scan-no_logs zero to f h = absurd (omega arith)
  scan-no_logs (suc fuel) to f h =
      rw (absent_range (range_start node hash to) to h, scan)
        (elim (Bool-cases (range_start node hash to == 0)) [
          | inl e ↦ rw e
          | inr e ↦ rw e (
              scan-no_logs fuel (range_start node hash to - 1) (ground arith)
                (λ x i s. let later = h x i s in ground arith))
        ])

  -- Let the node serve the logs, and let every log of the hash hold `bytes`. If one stands at or
  -- below the latest block, `fetchContent` returns `bytes`, with whatever hint.
  pub fetch_content-finds :
      (bytes : List ℕ) (hint : Option ℕ) (hex : Text) (latest : ℕ) (e : LoggedEvent)
      → ((x : LoggedEvent) → In x events → x.hash ≡ hash → abi_decode_bytes x.hex_data ≡ ok bytes)
      → node.block_number ≡ some hex
      → parse_int 16 hex ≡ number latest
      → In e events
      → e.hash ≡ hash
      → e.block ≤ latest
      → fetch_content node hash hint ≡ ok bytes
  unfolding fetch_content
  fetch_content-finds bytes hint hex latest e one known parsed listed same h = hinted hint
    where
      scanned : scan_back node hash node.block_number ≡ ok bytes
      scanned =
          ap (scan_back node hash) known
          ∙ ap (scan_latest node hash) parsed
          ∙ scan-finds node events serves hash bytes one (suc latest) latest e (omega arith) listed
              same h

      hinted : (hint : Option ℕ) → fetch_content node hash hint ≡ ok bytes
      hinted none = scanned
      hinted (some zero) = scanned
      hinted (some (suc b)) =
          elim (first_of_logs-cases node events serves hash bytes one b (suc (suc b))) [
            | inl empty ↦ rw (empty.1, fetch_content) scanned
            | inr found ↦ rw (found, fetch_content)
          ]
