-- ===== src/RoundTrip/WebPage.antt =====
-- From web/src to lib/src: the files that the page uploads, fetched by the hash that it shows.
use evmfs.Prelude.{
  ℕ, ◌≡◌, refl, ◌∙◌, ap, inl, inr, true, Option, some, List, [], ◌∷◌, ◌++◌, map, get_elem?, All, ok,
  ◌==◌, ◌&&◌, ==_iff, both, Bool-cases,
}
use evmfs.Prelude.Text.{Text}
use evmfs.Prelude.Digits.{decimal}
use evmfs.Prelude.Member.{In}
use evmfs.Prelude.ParseInt.{number, parse_int}
use evmfs.Contract.{Call, store_manifest}
use evmfs.Cli.Batch.{expand_file, expand_files_to_units}
use evmfs.Cli.Batch.Files.{IndexedFrom}
use evmfs.Cli.Manifest.{ManifestEntry, build_entry, manifest_json}
use evmfs.Cli.Upload.Assemble.Ascending.{Records}
use evmfs.Cli.Upload.Assemble.Entries.{Lists}
use evmfs.Web.Units.{FileEntry, units_of_files, batches_of_units}
use evmfs.Web.Units.Chunking.{entry_of}
use evmfs.Web.Progress.{SavedProgress, Stored}
use evmfs.Web.Upload.{PageEnv, Uploaded, upload_files, saved_units}
use evmfs.Web.Upload.Confirmed.{IsHonestPage, HasDistinctHashes}
use evmfs.Web.Upload.Listed.{upload_files-Lists}
use evmfs.Reader.Rpc.Scan.{LoggedEvent, Serves}
use evmfs.Reader.Evmfs.{Evmfs, try_gunzip, fetch}
use evmfs.RoundTrip.{IsGzip, IsLogged}
use evmfs.RoundTrip.Site.{IsManifest, fetch-try_gunzip, get_elem?-map}

try_gunzip-raw :
    (gunzip : List ℕ → Option (List ℕ)) (bytes : List ℕ)
    → ¬ IsGzip bytes
    → try_gunzip gunzip bytes ≡ bytes
unfolding try_gunzip
try_gunzip-raw gunzip [] raw = refl
try_gunzip-raw gunzip (a ∷ []) raw = refl
try_gunzip-raw gunzip (a ∷ b ∷ rest) raw = elim (Bool-cases ((a == 0x1f) && (b == 0x8b))) [
  | inr other ↦ rw other
  | inl magic ↦ let (p, q) = both magic in absurd (raw ((==_iff a 0x1f).0 p, (==_iff b 0x8b).0 q))
]

-- The data of the manifest that the page makes for the entries.
abbrev pub manifest_bytes : PageEnv → List ManifestEntry → List ℕ
manifest_bytes env entries = env.gzip_text (manifest_json (map (build_entry true) entries))

module _ (env : PageEnv) (e : Evmfs) (events : List LoggedEvent) (latest : ℕ) (hex : Text)
    (serves : Serves e.node events) (known : e.node.block_number ≡ some hex)
    (parsed : parse_int 16 hex ≡ number latest) where
  -- It is logged, and the library reads the entries from it.
  abbrev pub IsPrinted : List ManifestEntry → Type 0
  IsPrinted entries =
      IsManifest env.keccak256 e events latest hex serves known parsed true entries
        (manifest_bytes env entries)

  abbrev pub IsOnChain : List ℕ → Type 0
  IsOnChain bytes = IsLogged env.keccak256 e events latest bytes

  -- Let the page upload numbered and named files to a contract that logs what it stores, with no two
  -- units of a batch of one hash and with saved progress, if any, that records units of the files. Let
  -- the node that the library asks serve logs that hold the file's units and the manifest that the last
  -- transaction stored, where no log of their hashes holds other data, and let gunzip and JSON.parse
  -- read from that manifest the entries that it was printed from. If the upload returns, then `fetch`,
  -- given the manifest hash that it returned and whatever block, returns for the number of a file that
  -- is not gzip data the bytes of the file.
  pub fetch-upload_files :
      IsHonestPage env
      → (files : List FileEntry) (gas_limit : ℕ) (saved : Option SavedProgress)
        (filenames : ℕ → Option Text) (storage : Stored) (out : Uploaded) (block : Option ℕ) (i : ℕ)
        (f : FileEntry)
      → IndexedFrom 0 (map entry_of files)
      → All (λ b. HasDistinctHashes env b.units) (batches_of_units (units_of_files files) gas_limit)
      → Records env.keccak256 (expand_files_to_units (map entry_of files)) (saved_units env saved)
      → ((g : FileEntry) → In g files → filenames g.index ≡ some g.name)
      → upload_files env files
          (batches_of_units (units_of_files files) gas_limit)
          saved
          filenames
          storage
        ≡ ok out
      → ((entries : List ManifestEntry) (calls : List Call)
          → Lists env.keccak256 (map entry_of files) entries
          → out.page.sent ≡ calls ++ store_manifest (manifest_bytes env entries) ∷ []
          → IsPrinted entries)
      → All (λ u. IsOnChain u.bytes) (expand_file (entry_of f))
      → get_elem? files i ≡ some f
      → ¬ IsGzip f.file
      → fetch e out.manifest_hash block (decimal i) ≡ ok f.file
  fetch-upload_files honest files gas_limit saved filenames storage out block i f indexed distinct
        before named completes stored units at_i raw =
      let (entries, calls, lists, sent, manifest_hash) =
        upload_files-Lists env honest files gas_limit saved filenames storage indexed distinct
          before named out completes in
      ap (λ h. fetch e h block (decimal i)) manifest_hash
      ∙ fetch-try_gunzip env.keccak256 e events latest hex serves known parsed true entries
          (manifest_bytes env entries) block (map entry_of files) i (entry_of f)
          (stored entries calls lists sent) lists (get_elem?-map entry_of files i f at_i) units
      ∙ ap ok (try_gunzip-raw e.gunzip f.file raw)
