-- ===== src/RoundTrip/Deploy.antt =====
-- From cli/src to lib/src: the files that the command line client uploads, fetched by the hash that it
-- saves.
use evmfs.Prelude.{
  ℕ, ◌≡◌, ◌≢◌, Bool, true, Option, none, some, List, [], ◌∷◌, ◌++◌, map, get_elem?, All, ok,
}
use evmfs.Prelude.Text.{Text, codes, text_eq, to_lower}
use evmfs.Prelude.Digits.{decimal}
use evmfs.Prelude.ParseInt.{number, parse_int}
use evmfs.Contract.{Call, store_manifest}
use evmfs.Cli.Batch.{FileEntry, expand_file, expand_files_to_units}
use evmfs.Cli.Batch.Files.{IndexedFrom}
use evmfs.Cli.Manifest.{ManifestEntry, UploadState, SavedFile, build_manifest}
use evmfs.Cli.Upload.Send.{failed, batch_call}
use evmfs.Cli.Upload.Send.Receipts.{IsHonest, Distinct}
use evmfs.Cli.Upload.Assemble.Complete.{IsFaithful}
use evmfs.Cli.Upload.Assemble.Entries.{Lists}
use evmfs.Cli.Upload.Command.{UploadOptions, Env, upload_from}
use evmfs.Cli.Upload.Command.Run.{batches_from, upload_from-IsCompleted}
use evmfs.Reader.Rpc.Scan.{LoggedEvent, Serves}
use evmfs.Reader.Evmfs.{Evmfs, fetch}
use evmfs.RoundTrip.{IsGzip, IsLogged}
use evmfs.RoundTrip.Site.{IsManifest, fetch-decimal}

module _ (env : Env) (options : UploadOptions) (include_filenames : Bool) (files : List FileEntry)
    (e : Evmfs) (events : List LoggedEvent) (latest : ℕ) (hex : Text)
    (serves : Serves e.node events) (known : e.node.block_number ≡ some hex)
    (parsed : parse_int 16 hex ≡ number latest) where
  abbrev pub manifest_of : List ManifestEntry → List ℕ
  manifest_of entries = (build_manifest env.gzip_text entries include_filenames).1

  -- The manifest of the entries is logged, and the library reads the entries from it.
  abbrev pub IsPrinted : List ManifestEntry → Type 0
  IsPrinted entries =
      IsManifest env.keccak256 e events latest hex serves known parsed include_filenames entries
        (manifest_of entries)

  -- Let the contract log what it stores, every transaction get a receipt and no two units have one hash,
  -- and let a run be answered `y`, from progress that records units of these files, none twice, and has
  -- no manifest. Let the node that the library asks serve logs that hold the file's units and the
  -- manifest that the last transaction stored, where no log of their hashes holds other data, and let
  -- gunzip and JSON.parse read from that manifest the entries that it was printed from. Then the run
  -- saves a manifest hash, and `fetch`, given it and whatever block, returns for the number of a file
  -- the content whose gzip data the file is.
  pub fetch-upload_from :
      IsHonest env.keccak256 env.submit
      → ((i : ℕ) (call : Call) → env.submit i call ≢ failed)
      → (saved : Option SavedFile) (loaded : UploadState) (block : Option ℕ) (i : ℕ) (f : FileEntry)
        (content : List ℕ)
      → IndexedFrom 0 files
      → IsFaithful env.keccak256 (expand_files_to_units files) loaded.chunks
      → loaded.manifest_hash ≡ none
      → Distinct env.keccak256 (expand_files_to_units files)
      → text_eq (to_lower env.answer) (codes "y") ≡ true
      → ((entries : List ManifestEntry) (calls : List Call)
          → Lists env.keccak256 files entries
          → (upload_from env options include_filenames files saved loaded).world.sent
            ≡ calls ++ store_manifest (manifest_of entries) ∷ []
          → IsPrinted entries)
      → get_elem? files i ≡ some f
      → All (λ u. IsLogged env.keccak256 e events latest u.bytes) (expand_file f)
      → IsGzip f.compressed
      → e.gunzip f.compressed ≡ some content
      → (hash : Text) × ((upload_from env options include_filenames files saved
            loaded).world.state.manifest_hash
          ≡ some hash)
        × (fetch e hash block (decimal i) ≡ ok content)
  fetch-upload_from honest answered saved loaded block i f content indexed faithful no_hash distinct
        agreed stored at_i logged gzipped unzips =
      let c =
        upload_from-IsCompleted env options include_filenames files honest answered saved loaded
          indexed faithful no_hash distinct agreed in
      let calls =
        map (λ b. batch_call b.units) (batches_from env options include_filenames files loaded) in
      (
        env.keccak256 (manifest_of c.entries),
        c.hash,
        fetch-decimal env.keccak256 e events latest hex serves known parsed include_filenames
            c.entries (manifest_of c.entries) block files i f content
            (stored c.entries calls c.listed c.sent) c.listed at_i logged gzipped unzips,
      )
