-- ===== src/Examples/WebPages.antt =====
-- A file that the page uploads and the library fetches.
use evmfs.Prelude.{
  ℕ, ◌+◌, ◌≡◌, ◌≢◌, refl, sym, ap, subst, inl, inr, true, Option, none, some, List, [], ◌∷◌, ◌++◌,
  map, All, ok, arith,
}
use evmfs.Prelude.Text.{Text, codes, text_eq_iff, to_lower}
use evmfs.Prelude.Digits.{decimal}
use evmfs.Prelude.Member.{In}
use evmfs.Contract.{Call, store, store_manifest, events}
use evmfs.Cli.Batch.{expand_file, whole_file}
use evmfs.Cli.Manifest.{ChunkRef, ManifestEntry, build_entry, manifest_json}
use evmfs.Cli.Upload.Assemble.Entries.{Lists}
use evmfs.Web.Units.{
  FileEntry, units_of_files, whole, file_units, read_unit, load_step, batches_of_units,
}
use evmfs.Web.Units.Chunking.{entry_of}
use evmfs.Web.Progress.{absent}
use evmfs.Web.Upload.{PageLog, mined, PageEnv, Uploaded, upload_files}
use evmfs.Web.Upload.Confirmed.{IsHonestPage, HasDistinctHashes}
use evmfs.Web.Upload.Listed.{upload_files-Lists, upload_files-ok}
use evmfs.Web.ConfirmedMap.{has_unit, set_unit}
use evmfs.Web.Manifest.{build_manifest_entries}
use evmfs.Cli.Upload.Assemble.{file_chunks}
use evmfs.Prelude.Sort.{sort}
use evmfs.Web.Upload.{call_of, confirm_log}
use evmfs.Cli.Upload.Resume.{chunk_key}
use evmfs.Cli.BlockIndex.{get_block_index_address, is_v2_contract}
use evmfs.Reader.Abi.{abi_decode_bytes}
use evmfs.Reader.Abi.Encode.{abi_encode, bound}
use evmfs.Reader.Abi.RoundTrip.{abi_decode_bytes-abi_encode}
use evmfs.Reader.Rpc.Scan.{LoggedEvent}
use evmfs.Reader.Evmfs.{Evmfs, call_failed, fetch}
use evmfs.RoundTrip.{parsed_entry, IsLogged}
use evmfs.RoundTrip.Site.{IsManifest}
use evmfs.RoundTrip.WebPage.{manifest_bytes, IsPrinted, fetch-upload_files}
use evmfs.Examples.World.{hash, zip}
use evmfs.Examples.TwoLogs.{latest_nine, event_of, node, node-Serves, one_only, two_only}
use evmfs.Examples.TwoLogs
use evmfs.Examples.LoneFile.{lone_manifest}
use evmfs.Examples.Pages.{address, env}

abbrev logs : Call → List PageLog
logs call = map (λ e. record { address = address; topic = some e.content_hash }) (events hash call)

-- Every transaction is mined.
abbrev page : PageEnv
page = record env { submit = λ n call. mined (n + 7) 50000 (logs call) }

logs_of : {b c g h : ℕ} {ls ms : List PageLog} → mined b g ls ≡ mined c h ms → ls ≡ ms
logs_of e = cc

page-IsHonestPage : IsHonestPage page
page-IsHonestPage = record {
  logged = λ n call block gas ls e. sym (logs_of e);
  hashed = λ bytes e. cc;
}

abbrev file_bytes : List ℕ
file_bytes = codes "x"

abbrev file : FileEntry
file = record { index = 0; name = codes "a"; file = file_bytes }

abbrev files : List FileEntry
files = file ∷ []

abbrev names : ℕ → Option Text
names i = some (codes "a")

named : (f : FileEntry) → In f files → names f.index ≡ some f.name
named f i = elim i [
  | inl a ↦ subst (λ (g : FileEntry). names g.index ≡ some g.name) a refl
  | inr j ↦ absurd j
]

distinct :
    All (λ b. HasDistinctHashes page b.units) (batches_of_units (units_of_files files) 30000000)
unfolding batches_of_units units_of_files file_units load_step
distinct = ((tt, tt), tt)

abbrev ref : ChunkRef
ref = record { hash = hash file_bytes; block = 7 }

abbrev entry : ManifestEntry
entry = record { filename = codes "a"; chunks = ref ∷ [] }

abbrev stored_manifest : List ℕ
stored_manifest = zip (codes "[{\"h\":\"hx\",\"b\":7,\"f\":\"a\"}]")

stored_text : manifest_bytes page (entry ∷ []) ≡ stored_manifest
unfolding manifest_json build_entry
stored_text = refl

abbrev out : Uploaded
out = record {
  manifest_hash = hash stored_manifest;
  base_uri = codes "https://evmfs.xyz/1/8/" ++ hash stored_manifest ++ codes "/";
  confirmed =
      record {
        file_index = 0;
        chunk_index = 0;
        total_chunks = 1;
        hash = hash file_bytes;
        block = 7;
      }
      ∷ [];
  page = record {
    confirmed =
        (
          codes "0:0",
          record {
            file_index = 0;
            chunk_index = 0;
            total_chunks = 1;
            hash = hash file_bytes;
            block = 7;
          },
        )
        ∷ [];
    gas_used = 100000;
    storage = absent;
    sent = store file_bytes ∷ store_manifest stored_manifest ∷ [];
  };
  registration = some (hash stored_manifest, 8);
}

completes :
    upload_files page files (batches_of_units (units_of_files files) 30000000) none names absent
    ≡ ok out
unfolding upload_files batches_of_units units_of_files file_units load_step manifest_json to_lower
    has_unit build_manifest_entries file_chunks sort events call_of confirm_log read_unit whole
    set_unit chunk_key get_block_index_address is_v2_contract build_entry
completes = refl

abbrev log : List LoggedEvent
log = TwoLogs.events file_bytes stored_manifest

abbrev library : Evmfs
library = record {
  node = node file_bytes stored_manifest;
  contract = address;
  block_index = none;
  eth_call = λ addr h. call_failed;
  gunzip = λ bytes. elim bytes [ a ∷ b ∷ content ↦ some content | _ ↦ none ];
  parse_json = λ text. some (parsed_entry (build_entry true entry) ∷ []);
}

file_decodes : abi_decode_bytes (abi_encode file_bytes []) ≡ ok file_bytes
unfolding bound
file_decodes = abi_decode_bytes-abi_encode file_bytes [] (omega arith) tt (omega arith)

manifest_decodes : abi_decode_bytes (abi_encode stored_manifest []) ≡ ok stored_manifest
unfolding bound
manifest_decodes = abi_decode_bytes-abi_encode stored_manifest [] (omega arith) tt (omega arith)

hashes_differ : hash file_bytes ≢ hash stored_manifest
hashes_differ e = let same = (text_eq_iff (hash file_bytes) (hash stored_manifest)).1 e in cc

file-IsLogged : IsLogged hash library log 9 (whole_file (entry_of file)).bytes
unfolding whole_file
file-IsLogged = record {
  event = event_of file_bytes 7;
  listed = inl refl;
  hash = refl;
  block = omega arith;
  content = one_only file_bytes stored_manifest hashes_differ file_decodes;
  named = λ e. cc;
}

entry-IsPrinted :
    IsPrinted page library log 9
      (codes "0x9")
      (node-Serves file_bytes stored_manifest)
      refl
      latest_nine
      (entry ∷ [])
entry-IsPrinted =
    subst
      (IsManifest hash library log 9 (codes "0x9") (node-Serves file_bytes stored_manifest) refl
        latest_nine true (entry ∷ []))
      (sym stored_text)
      (record {
        logged = record {
          event = event_of stored_manifest 8;
          listed = inr (inl refl);
          hash = refl;
          block = omega arith;
          content = two_only file_bytes stored_manifest hashes_differ manifest_decodes;
          named = λ e. cc;
        };
        gzipped = (refl, refl);
        text = codes "[{\"h\":\"hx\",\"b\":7,\"f\":\"a\"}]";
        unzips = refl;
        parses = refl;
      })

stored :
    (entries : List ManifestEntry) (calls : List Call)
    → Lists hash (map entry_of files) entries
    → out.page.sent ≡ calls ++ store_manifest (manifest_bytes page entries) ∷ []
    → IsPrinted page library log 9
        (codes "0x9")
        (node-Serves file_bytes stored_manifest)
        refl
        latest_nine
        entries
unfolding expand_file whole_file
stored entries calls l sent =
    subst
      (IsPrinted page library log 9 (codes "0x9") (node-Serves file_bytes stored_manifest) refl
        latest_nine)
      (sym (
        lone_manifest (entry_of file) (hash file_bytes) 7 entries calls out.page.sent refl l
          (ap (λ bytes. some (store_manifest bytes)) (sym stored_text)) sent))
      entry-IsPrinted

fetch-upload_files_example : fetch library out.manifest_hash none (decimal 0) ≡ ok file_bytes
unfolding expand_file
fetch-upload_files_example =
    fetch-upload_files page library log 9 (codes "0x9") (node-Serves file_bytes stored_manifest)
      refl latest_nine page-IsHonestPage files 30000000 none names absent out none 0 file (refl, tt)
      distinct (λ c i. absurd i) named completes stored (file-IsLogged, tt) refl (λ z. z)

upload_files-Lists_example :
    (entries : List ManifestEntry) × (calls : List Call) × Lists hash (map entry_of files) entries
    × (out.page.sent ≡ calls ++ store_manifest (manifest_bytes page entries) ∷ [])
    × (out.manifest_hash ≡ hash (manifest_bytes page entries))
upload_files-Lists_example =
    upload_files-Lists page page-IsHonestPage files 30000000 none names absent (refl, tt) distinct
      (λ c i. absurd i) named out completes

upload_files-ok_example :
    (result : Uploaded) × (upload_files page files
        (batches_of_units (units_of_files files) 30000000)
        none
        names
        absent
      ≡ ok result)
upload_files-ok_example =
    upload_files-ok page page-IsHonestPage files 30000000 none names absent (refl, tt) distinct
      (λ c i. absurd i) named
      (λ n call. inl (record { block = n + 7; gas = 50000; logs = logs call; answer = refl }))
      (λ n bytes. record {
        block = n + 7;
        gas = 50000;
        logs = logs (store_manifest bytes);
        answer = refl;
      })
