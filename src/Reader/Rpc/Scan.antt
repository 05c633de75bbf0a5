-- ===== src/Reader/Rpc/Scan.antt =====
-- lib/src/rpc.ts: the ranges of the backward scan.
use evmfs.Prelude.{
  ℕ, zero, suc, ◌-◌, ◌*◌, ◌≤◌, ◌<◌, ◌≡◌, refl, sym, ◌∙◌, ap, subst, ◌⊎◌, inl, inr, Bool, true,
  false, ◌&&◌, Option, none, some, List, [], ◌∷◌, map, keep, leb, ◌==◌, Bool-cases, Result, ok,
  arith,
}
use evmfs.Prelude.Text.{Text, text_eq, text_eq_refl, text_eq_sound}
use evmfs.Prelude.Member.{In, In-keep}
use evmfs.Reader.Abi.{abi_decode_bytes}
use evmfs.Reader.Rpc.{RpcError, Node, decoded, first_log, fetch_logs_in_range, range_start, scan}

-- A Store log of the contract on the chain.
pub record LoggedEvent : Type 0 where
  pub hash : Text
  pub block : ℕ
  pub hex_data : Text

abbrev pub in_range : Text → ℕ → ℕ → LoggedEvent → Bool
in_range hash from to e = text_eq e.hash hash && (leb from e.block && leb e.block to)

abbrev pub logs_in : Text → ℕ → ℕ → List LoggedEvent → List LoggedEvent
logs_in hash from to events = keep (in_range hash from to) events

-- `eth_getLogs` answers with the data of the logs that match, in order.
pub record Serves (node : Node) (events : List LoggedEvent) : Type 0 where
  pub logs :
      (hash : Text) (from to : ℕ)
      → node.get_logs hash from to
        ≡ some (map (λ (e : LoggedEvent). e.hex_data) (logs_in hash from to events))

module _ (node : Node) (events : List LoggedEvent) (serves : Serves node events) (hash : Text) where
  unfoldable pub first_of_logs : List LoggedEvent → Result RpcError (Option (List ℕ))
  first_of_logs found = first_log (some (map (λ (e : LoggedEvent). e.hex_data) found))

  pub fetch-eq :
      (from to : ℕ)
      → fetch_logs_in_range node hash from to ≡ first_of_logs (logs_in hash from to events)
  unfolding fetch_logs_in_range first_of_logs
  fetch-eq from to = ap first_log (serves.logs hash from to)

  module _ (bytes : List ℕ)
      (one_content : (e : LoggedEvent)
        → In e events
        → e.hash ≡ hash
        → abi_decode_bytes e.hex_data ≡ ok bytes) where
    -- A range without a log gives null, and any other the content.
    pub first_of_logs-cases :
        (from to : ℕ)
        → ((logs_in hash from to events ≡ []) × (fetch_logs_in_range node hash from to ≡ ok none))
          ⊎ (fetch_logs_in_range node hash from to ≡ ok (some bytes))
    unfolding first_of_logs
    first_of_logs-cases from to = split (logs_in hash from to events) refl
      where
        split :
            (found : List LoggedEvent)
            → logs_in hash from to events ≡ found
            → ((logs_in hash from to events ≡ [])
                × (fetch_logs_in_range node hash from to ≡ ok none))
              ⊎ (fetch_logs_in_range node hash from to ≡ ok (some bytes))
        split [] e = inl (e, fetch-eq from to ∙ ap first_of_logs e)
        split (x ∷ rest) e =
            let (listed, matches) =
              (In-keep (in_range hash from to) x events).0 (subst (In x) (sym e) (inl refl)) in
            let content = one_content x listed (text_eq_sound x.hash hash (ground arith)) in
            inr (fetch-eq from to ∙ ap first_of_logs e ∙ rw (content, decoded))

    missing :
        (from to : ℕ) (e : LoggedEvent)
        → logs_in hash from to events ≡ []
        → In e events
        → e.hash ≡ hash
        → e.block ≤ to
        → e.block < from
    missing from to e none_in listed same h = elim (Bool-cases (leb from e.block)) [
      | inr out ↦ ground arith
      | inl within ↦
          let named : text_eq e.hash hash ≡ true =
            subst (λ t. text_eq e.hash t ≡ true) same (text_eq_refl e.hash) in
          absurd (
            subst (In e) none_in
              ((In-keep (in_range hash from to) e events).1 (listed, ground arith)))
    ]

    -- With fuel for every range of 50,000 blocks, the scan from `to` finds the content of a log at or
    -- below `to`.
    pub scan-finds :
        (fuel to : ℕ) (e : LoggedEvent)
        → to < fuel * 50000
        → In e events
        → e.hash ≡ hash
        → e.block ≤ to
        → scan node hash fuel to ≡ ok bytes
    unfolding scan
    scan-finds zero to e f listed same h = absurd (omega arith)
    scan-finds (suc fuel) to e f listed same h =
        elim (first_of_logs-cases (range_start node hash to) to) [
          | inr found ↦ rw (found, scan)
          | inl empty ↦
              let below = missing (range_start node hash to) to e empty.0 listed same h in
              let more : (range_start node hash to == 0) ≡ false = ground arith in
              rw (empty.1, scan)
                (rw (more, scan)
                  (scan-finds fuel (range_start node hash to - 1) e (omega arith) listed same
                    (omega arith)))
        ]
