-- ===== src/Examples/TwoLogs.antt =====
-- A node whose logs hold the data of a file and of a manifest.
use evmfs.Prelude.{ℕ, ◌≡◌, ◌≢◌, refl, sym, ◌∙◌, ap, subst, inl, inr, some, List, [], ◌∷◌, map, ok}
use evmfs.Prelude.Text.{Text, codes}
use evmfs.Prelude.Digits.{leading_digits, value}
use evmfs.Prelude.Member.{In}
use evmfs.Prelude.ParseInt.{number, parse_int}
use evmfs.Reader.Abi.{abi_decode_bytes}
use evmfs.Reader.Abi.Encode.{abi_encode}
use evmfs.Reader.Rpc.{Node}
use evmfs.Reader.Rpc.Scan.{LoggedEvent, logs_in, Serves}
use evmfs.Examples.World.{hash}

pub latest_nine : parse_int 16 (codes "0x9") ≡ number 9
unfolding parse_int leading_digits value
latest_nine = refl

abbrev pub event_of : List ℕ → ℕ → LoggedEvent
event_of bytes block = record { hash = hash bytes; block = block; hex_data = abi_encode bytes [] }

abbrev hash_of : LoggedEvent → Text
hash_of x = x.hash

module _ (one two : List ℕ) where
  abbrev pub events : List LoggedEvent
  events = event_of one 7 ∷ event_of two 8 ∷ []

  abbrev pub node : Node
  node = record {
    block_number = some (codes "0x9");
    get_logs = λ h from to. some (map (λ (e : LoggedEvent). e.hex_data) (logs_in h from to events));
  }

  pub node-Serves : Serves node events
  node-Serves = record { logs = λ h from to. refl }

  module _ (differ : hash one ≢ hash two) where
    pub one_only :
        abi_decode_bytes (abi_encode one []) ≡ ok one
        → (x : LoggedEvent) → In x events
        → x.hash ≡ hash one
        → abi_decode_bytes x.hex_data ≡ ok one
    one_only decodes x i same = elim i [
      | inl e ↦ subst (λ (z : LoggedEvent). abi_decode_bytes z.hex_data ≡ ok one) e decodes
      | inr j ↦ elim j [ inl e ↦ absurd (differ (sym (ap hash_of e ∙ same))) | inr n ↦ absurd n ]
    ]

    pub two_only :
        abi_decode_bytes (abi_encode two []) ≡ ok two
        → (x : LoggedEvent) → In x events
        → x.hash ≡ hash two
        → abi_decode_bytes x.hex_data ≡ ok two
    two_only decodes x i same = elim i [
      | inl e ↦ absurd (differ (ap hash_of e ∙ same))
      | inr j ↦ elim j [
        | inl e ↦ subst (λ (z : LoggedEvent). abi_decode_bytes z.hex_data ≡ ok two) e decodes
        | inr n ↦ absurd n
      ]
    ]
