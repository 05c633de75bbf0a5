-- ===== src/Examples/Reads.antt =====
-- Reading back what the small world has logged.
use evmfs.Prelude.{
  ℕ, ◌<◌, ◌≡◌, ◌≢◌, refl, subst, ap, ◌∙◌, inl, inr, true, Option, none, some, List, [], ◌∷◌, map,
  ok, err, arith,
}
use evmfs.Prelude.Text.{codes}
use evmfs.Prelude.Digits.{leading_digits, value}
use evmfs.Prelude.Member.{In}
use evmfs.Prelude.ParseInt.{number, parse_int}
use evmfs.Cli.Batch.{expand_file, whole_file}
use evmfs.Cli.Manifest.{ManifestEntry, build_entry}
use evmfs.Cli.Upload.Assemble.Entries.{IsEntryOf}
use evmfs.Reader.Abi.{abi_decode_bytes}
use evmfs.Reader.Abi.Encode.{abi_encode, bound}
use evmfs.Reader.Abi.RoundTrip.{abi_decode_bytes-abi_encode}
use evmfs.Reader.Rpc.{Node, no_logs, out_of_fuel, scan, fetch_content}
use evmfs.Reader.Rpc.Scan.{LoggedEvent, logs_in, Serves}
use evmfs.Reader.Rpc.Found.{scan-ne-out_of_fuel, scan-no_logs, fetch_content-finds}
use evmfs.Reader.Evmfs
use evmfs.Reader.Evmfs.{Evmfs, call_failed, fetch_entry, resolve_entry, is_index}
use evmfs.Reader.Evmfs.Entries.{resolve_entry-name}
use evmfs.RoundTrip.{parsed_entry, IsLogged, fetch_entry-build_entry}
use evmfs.Examples.World.{hash, zip, first}

abbrev logged : LoggedEvent
logged = record { hash = hash (zip (1 ∷ [])); block = 8; hex_data = abi_encode (zip (1 ∷ [])) [] }

abbrev events : List LoggedEvent
events = logged ∷ []

abbrev node : Node
node = record {
  block_number = some (codes "0x9");
  get_logs = λ h from to. some (map (λ (e : LoggedEvent). e.hex_data) (logs_in h from to events));
}

node-Serves : Serves node events
node-Serves = record { logs = λ h from to. refl }

abi_decode_bytes-abi_encode_example :
    abi_decode_bytes (abi_encode (zip (1 ∷ [])) []) ≡ ok (zip (1 ∷ []))
unfolding bound
abi_decode_bytes-abi_encode_example =
    abi_decode_bytes-abi_encode (zip (1 ∷ [])) [] (omega arith) tt (omega arith)

only_content :
    (x : LoggedEvent)
    → In x events
    → x.hash ≡ hash (zip (1 ∷ []))
    → abi_decode_bytes x.hex_data ≡ ok (zip (1 ∷ []))
only_content x i same = elim i [
  | inl e ↦
      subst (λ (z : LoggedEvent). abi_decode_bytes z.hex_data ≡ ok (zip (1 ∷ []))) e
        abi_decode_bytes-abi_encode_example
  | inr n ↦ absurd n
]

latest_nine : parse_int 16 (codes "0x9") ≡ number 9
unfolding parse_int leading_digits value
latest_nine = refl

fetch_content-finds_example : fetch_content node (hash (zip (1 ∷ []))) (some 3) ≡ ok (zip (1 ∷ []))
fetch_content-finds_example =
    fetch_content-finds node events node-Serves (hash (zip (1 ∷ []))) (zip (1 ∷ [])) (some 3)
      (codes "0x9") 9 logged only_content refl latest_nine (inl refl) refl (omega arith)

scan-ne-out_of_fuel_example : scan node (codes "h") 1 9 ≢ err out_of_fuel
scan-ne-out_of_fuel_example = scan-ne-out_of_fuel node (codes "h") 1 9 (omega arith)

scan-no_logs_example : scan node (codes "x") 1 9 ≡ err no_logs
scan-no_logs_example = scan-no_logs node events node-Serves (codes "x") 1 9 (omega arith) not_there
  where
    not_there : (e : LoggedEvent) → In e events → e.hash ≡ codes "x" → 9 < e.block
    not_there e (inl same) h = absurd (let k = ap (λ (z : LoggedEvent). z.hash) same ∙ h in cc)
    not_there e (inr n) h = absurd n

abbrev pub entry : ManifestEntry
entry = record {
  filename = codes "a";
  chunks = record { hash = hash (zip (1 ∷ [])); block = 3 } ∷ [];
}

entry-IsEntryOf : IsEntryOf hash first entry
unfolding expand_file whole_file
entry-IsEntryOf = record { filename = refl; hashes = refl }

-- Decompression that undoes `zip`.
abbrev unzip : List ℕ → Option (List ℕ)
unzip (a ∷ b ∷ content) = some content
unzip _ = none

abbrev pub library : Evmfs
library = record {
  node = node;
  contract = codes "0x140cbDFf649929D003091a5B8B3be34588753aBA";
  block_index = none;
  eth_call = λ addr h. call_failed;
  gunzip = unzip;
  parse_json = λ bytes. none;
}

first-IsLogged : IsLogged hash library events 9 (whole_file first).bytes
unfolding whole_file
first-IsLogged = record {
  event = logged;
  listed = inl refl;
  hash = refl;
  block = omega arith;
  content = only_content;
  named = λ e. cc;
}

-- The data that the entry stands for.
pub entry_data : fetch_entry library (parsed_entry (build_entry true entry)) ≡ ok (1 ∷ [])
unfolding expand_file
entry_data =
    fetch_entry-build_entry hash library events 9 (codes "0x9") node-Serves refl latest_nine first
      entry true (1 ∷ []) entry-IsEntryOf (first-IsLogged, tt) (refl, refl) refl

abbrev page : Evmfs.ManifestEntry
page = record { h = some (codes "h1"); b = some 3; p = none; f = some (codes "index.html") }

abbrev style : Evmfs.ManifestEntry
style = record { h = some (codes "h2"); b = some 3; p = none; f = some (codes "a.css") }

resolve_entry-name_example : resolve_entry (page ∷ style ∷ []) (codes "a.css") ≡ some style
unfolding is_index parse_int leading_digits value
resolve_entry-name_example =
    resolve_entry-name (page ∷ style ∷ []) (codes "a.css") style refl
      ((inr (λ e. cc), tt), (tt, tt)) (inr (inl refl)) refl
