-- ===== src/Examples/Deploys.antt =====
-- A file that the command line client uploads and the library fetches.
use evmfs.Prelude.{
  ◌≡◌, ◌≢◌, refl, sym, ◌∙◌, ap, subst, inl, inr, true, none, some, List, [], ◌∷◌, ◌++◌, map, ok,
  arith, ℕ,
}
use evmfs.Prelude.Text.{Text, codes, text_eq_iff, to_lower}
use evmfs.Prelude.Digits.{decimal, leading_digits, value}
use evmfs.Prelude.ParseInt.{parse_int}
use evmfs.Prelude.Sort.{sort}
use evmfs.Contract.{Call, store, store_manifest, events}
use evmfs.Cli.Batch.{
  FileEntry, expand_file, whole_file, expand_files_to_units, pack_batches, pack_step,
}
use evmfs.Cli.Manifest.{ManifestEntry, build_entry, build_manifest, manifest_json}
use evmfs.Cli.Upload.Resume.{discard_stale, remaining_units}
use evmfs.Cli.Upload.Send.{failed, send_batches}
use evmfs.Cli.Upload.Send.Receipts.{Distinct}
use evmfs.Cli.Upload.Assemble.{file_chunks, assemble}
use evmfs.Cli.Upload.Assemble.Complete.{IsFaithful}
use evmfs.Cli.Upload.Assemble.Entries.{Lists}
use evmfs.Cli.Upload.Command.{upload_from}
use evmfs.Reader.Abi.{abi_decode_bytes}
use evmfs.Reader.Abi.Encode.{abi_encode, bound}
use evmfs.Reader.Abi.RoundTrip.{abi_decode_bytes-abi_encode}
use evmfs.Reader.Evmfs.{Evmfs, call_failed, fetch}
use evmfs.RoundTrip.{parsed_entry, IsLogged}
use evmfs.RoundTrip.Site.{IsManifest}
use evmfs.RoundTrip.Deploy.{IsPrinted, fetch-upload_from}
use evmfs.Examples.World.{hash, zip, submit, env, options, first, nothing, submit-IsHonest}
use evmfs.Examples.LoneFile.{lone, last_call, lone_manifest}
use evmfs.Examples.TwoLogs.{latest_nine, event_of, node, node-Serves, one_only, two_only}
use evmfs.Examples.TwoLogs

abbrev files : List FileEntry
files = first ∷ []

abbrev file_bytes : List ℕ
file_bytes = zip (1 ∷ [])

-- The file's hash holds control characters, which JSON escapes.
abbrev text : List ℕ
text = codes "[{\"h\":\"h\\u001f" ++ 0x8b ∷ codes "\\u0001\",\"b\":7,\"f\":\"a\"}]"

abbrev stored_manifest : List ℕ
stored_manifest = zip text

abbrev entries : List ManifestEntry
entries = lone (codes "a") (hash file_bytes) 7

stored_text : zip (manifest_json (map (build_entry true) entries)) ≡ stored_manifest
unfolding manifest_json build_entry
stored_text = refl

sent :
    (upload_from env options true files none nothing).world.sent
    ≡ store file_bytes ∷ store_manifest stored_manifest ∷ []
unfolding upload_from remaining_units expand_files_to_units expand_file discard_stale to_lower
    send_batches pack_batches pack_step parse_int leading_digits value whole_file manifest_json
    build_manifest build_entry file_chunks assemble events sort
sent = refl

abbrev library : Evmfs
library = record {
  node = node file_bytes stored_manifest;
  contract = codes "0x140cbDFf649929D003091a5B8B3be34588753aBA";
  block_index = none;
  eth_call = λ addr h. call_failed;
  gunzip = λ bytes. elim bytes [ a ∷ b ∷ content ↦ some content | _ ↦ none ];
  parse_json = λ json. some (map (λ e. parsed_entry (build_entry true e)) entries);
}

file_decodes : abi_decode_bytes (abi_encode file_bytes []) ≡ ok file_bytes
unfolding bound
file_decodes = abi_decode_bytes-abi_encode file_bytes [] (omega arith) tt (omega arith)

manifest_decodes : abi_decode_bytes (abi_encode stored_manifest []) ≡ ok stored_manifest
unfolding bound
manifest_decodes = abi_decode_bytes-abi_encode stored_manifest [] (omega arith) tt (omega arith)

differ : hash file_bytes ≢ hash stored_manifest
differ e = let same = (text_eq_iff (hash file_bytes) (hash stored_manifest)).1 e in cc

file-IsLogged :
    IsLogged hash library (TwoLogs.events file_bytes stored_manifest) 9 (whole_file first).bytes
unfolding whole_file
file-IsLogged = record {
  event = event_of file_bytes 7;
  listed = inl refl;
  hash = refl;
  block = omega arith;
  content = one_only file_bytes stored_manifest differ file_decodes;
  named = λ e. cc;
}

entries-IsPrinted :
    IsPrinted env options true files library
      (TwoLogs.events file_bytes stored_manifest)
      9
      (codes "0x9")
      (node-Serves file_bytes stored_manifest)
      refl
      latest_nine
      entries
unfolding build_manifest
entries-IsPrinted =
    subst
      (IsManifest hash library (TwoLogs.events file_bytes stored_manifest) 9 (codes "0x9")
        (node-Serves file_bytes stored_manifest) refl latest_nine true entries)
      (sym stored_text)
      (record {
        logged = record {
          event = event_of stored_manifest 8;
          listed = inr (inl refl);
          hash = refl;
          block = omega arith;
          content = two_only file_bytes stored_manifest differ manifest_decodes;
          named = λ e. cc;
        };
        gzipped = (refl, refl);
        text = text;
        unzips = refl;
        parses = refl;
      })

stored :
    (made : List ManifestEntry) (calls : List Call)
    → Lists hash files made
    → (upload_from env options true files none nothing).world.sent
      ≡ calls ++ store_manifest (build_manifest zip made true).1 ∷ []
    → IsPrinted env options true files library
        (TwoLogs.events file_bytes stored_manifest)
        9
        (codes "0x9")
        (node-Serves file_bytes stored_manifest)
        refl
        latest_nine
        made
unfolding expand_file whole_file build_manifest
stored made calls l same =
    subst
      (IsPrinted env options true files library (TwoLogs.events file_bytes stored_manifest) 9
        (codes "0x9") (node-Serves file_bytes stored_manifest) refl latest_nine)
      (sym (
        lone_manifest first (hash file_bytes) 7 made calls
          (upload_from env options true files none nothing).world.sent refl l
          (ap last_call sent ∙ ap (λ bytes. some (store_manifest bytes)) (sym stored_text)) same))
      entries-IsPrinted

answered : (i : ℕ) (call : Call) → submit i call ≢ failed
answered i call e = cc

nothing-IsFaithful : IsFaithful hash (expand_files_to_units files) nothing.chunks
nothing-IsFaithful = record { recorded = λ c i. absurd i; unique = tt }

files-Distinct : Distinct hash (expand_files_to_units files)
unfolding expand_files_to_units expand_file whole_file
files-Distinct = (tt, tt)

fetch-upload_from_example :
    (h : Text) × ((upload_from env options true files none nothing).world.state.manifest_hash
      ≡ some h)
    × (fetch library h none (decimal 0) ≡ ok (1 ∷ []))
unfolding to_lower expand_file
fetch-upload_from_example =
    fetch-upload_from env options true files library (TwoLogs.events file_bytes stored_manifest) 9
      (codes "0x9") (node-Serves file_bytes stored_manifest) refl latest_nine submit-IsHonest
      answered none nothing none 0 first (1 ∷ []) (refl, tt) nothing-IsFaithful refl files-Distinct
      refl stored refl (file-IsLogged, tt) (refl, refl) refl
