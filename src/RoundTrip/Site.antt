-- ===== src/RoundTrip/Site.antt =====
-- From cli/src to lib/src: the files of an upload, fetched from its manifest by their numbers.
use evmfs.Prelude.{
  ℕ, zero, suc, ◌<◌, ◌≡◌, refl, sym, ◌∙◌, ap, subst, Bool, Option, none, some, List, [], ◌∷◌, map,
  length, length-map, get_elem?, All, Result, ok, err, arith,
}
use evmfs.Prelude.Text.{Text}
use evmfs.Prelude.Digits.{decimal}
use evmfs.Prelude.ParseInt.{number, parse_int}
use evmfs.Cli.Batch.{FileEntry, expand_file}
use evmfs.Cli.Manifest.{ManifestEntry, build_entry}
use evmfs.Cli.Upload.Assemble.Entries.{IsEntryOf, Lists}
use evmfs.Reader.Rpc.{fetch_content}
use evmfs.Reader.Rpc.Scan.{LoggedEvent, Serves}
use evmfs.Reader.Evmfs
use evmfs.Reader.Evmfs.{
  Evmfs, FetchError, not_in_manifest, fetched, try_gunzip, manifest, resolve_entry, fetch_entry,
  fetch, resolve_block,
}
use evmfs.Reader.Evmfs.Entries.{resolve_entry-decimal}
use evmfs.RoundTrip.{
  parsed_entry, IsGzip, IsLogged, try_gunzip-IsGzip, fetch_logged, fetch_entry-try_gunzip,
}

-- The entry in the place of a file is that file's.
entry_at :
    (keccak256 : List ℕ → Text) (files : List FileEntry) (entries : List ManifestEntry) (i : ℕ)
    (f : FileEntry)
    → Lists keccak256 files entries
    → get_elem? files i ≡ some f
    → (entry : ManifestEntry) × (get_elem? entries i ≡ some entry) × IsEntryOf keccak256 f entry
entry_at keccak256 [] entries i f l h = cc
entry_at keccak256 (g ∷ files) [] i f l h = absurd l
entry_at keccak256 (g ∷ files) (entry ∷ entries) zero f (is_entry, l) h =
    let same : g ≡ f = cc in (entry, refl, subst (λ x. IsEntryOf keccak256 x entry) same is_entry)
entry_at keccak256 (g ∷ files) (entry ∷ entries) (suc i) f (is_entry, l) h =
    entry_at keccak256 files entries i f l h

pub get_elem?-map {ℓ κ} :
    {A : Type ℓ} {B : Type κ} (g : A → B) (xs : List A) (i : ℕ) (x : A)
    → get_elem? xs i ≡ some x
    → get_elem? (map g xs) i ≡ some (g x)
get_elem?-map g [] i x h = cc
get_elem?-map g (y ∷ xs) zero x h = let same : y ≡ x = cc in ap (λ z. some (g z)) same
get_elem?-map g (y ∷ xs) (suc i) x h = get_elem?-map g xs i x h

get_elem?-lt {ℓ} :
    {A : Type ℓ} (xs : List A) (i : ℕ) (x : A) → get_elem? xs i ≡ some x → i < length xs
get_elem?-lt [] i x h = cc
get_elem?-lt (y ∷ xs) zero x h = omega arith
get_elem?-lt (y ∷ xs) (suc i) x h = let k = get_elem?-lt xs i x h in omega arith

module _ (keccak256 : List ℕ → Text) (e : Evmfs) (events : List LoggedEvent) (latest : ℕ)
    (hex : Text) (serves : Serves e.node events) (known : e.node.block_number ≡ some hex)
    (parsed : parse_int 16 hex ≡ number latest) (include_filenames : Bool)
    (entries : List ManifestEntry) where
  abbrev pub printed : List Evmfs.ManifestEntry
  printed = map (λ entry. parsed_entry (build_entry include_filenames entry)) entries

  -- The bytes are a logged manifest: gzip data of a text that JSON.parse reads as the entries.
  pub record IsManifest (bytes : List ℕ) : Type 0 where
    pub logged : IsLogged keccak256 e events latest bytes
    pub gzipped : IsGzip bytes
    pub text : List ℕ
    pub unzips : e.gunzip bytes ≡ some text
    pub parses : e.parse_json text ≡ some printed

  manifest-printed :
      (bytes : List ℕ) (block : Option ℕ)
      → IsManifest bytes
      → manifest e (keccak256 bytes) block ≡ ok printed
  unfolding manifest
  manifest-printed bytes block m =
      let found : (hint : ℕ) → fetch_content e.node (keccak256 bytes) (some hint) ≡ ok bytes =
        λ hint.
          fetch_logged keccak256 e events latest hex serves known parsed bytes (some hint)
            m.logged in
      let text : try_gunzip e.gunzip bytes ≡ m.text =
        try_gunzip-IsGzip e.gunzip bytes m.text m.gzipped m.unzips in
      rw (found, manifest) (rw (text, manifest) (rw (m.parses, manifest)))

  -- What the library returns for the number of a file, whatever the file's data are.
  pub fetch-try_gunzip :
      (bytes : List ℕ) (block : Option ℕ) (files : List FileEntry) (i : ℕ) (f : FileEntry)
      → IsManifest bytes
      → Lists keccak256 files entries
      → get_elem? files i ≡ some f
      → All (λ u. IsLogged keccak256 e events latest u.bytes) (expand_file f)
      → fetch e (keccak256 bytes) block (decimal i) ≡ ok (try_gunzip e.gunzip f.compressed)
  unfolding fetch
  fetch-try_gunzip bytes block files i f m listed at_i logged =
      let (entry, found, is_entry) = entry_at keccak256 files entries i f listed at_i in
      let print : ManifestEntry → Evmfs.ManifestEntry =
        λ x. parsed_entry (build_entry include_filenames x) in
      let in_range : i < length printed =
        subst (λ n. i < n) (sym (length-map entries print)) (get_elem?-lt entries i entry found) in
      let resolved : resolve_entry printed (decimal i) ≡ some (print entry) =
        resolve_entry-decimal printed i in_range ∙ get_elem?-map print entries i entry found in
      rw (manifest-printed bytes block m, fetch)
        (ap (answer (decimal i)) resolved
          ∙ fetch_entry-try_gunzip keccak256 e events latest hex serves known parsed f entry
              include_filenames is_entry logged)
    where
      answer : Text → Option Evmfs.ManifestEntry → Result FetchError (List ℕ)
      answer path found = elim found [
        | none ↦ err (not_in_manifest path)
        | some entry ↦ fetch_entry e entry
      ]

  -- Let the node serve the logs, the manifest of an upload be logged, and the manifest list the files.
  -- Then `fetch`, given its hash and whatever block, returns for the number of a file the content whose
  -- gzip data the file is, if the file's chunks are logged where no log of their hashes holds other
  -- data.
  pub fetch-decimal :
      (bytes : List ℕ) (block : Option ℕ) (files : List FileEntry) (i : ℕ) (f : FileEntry)
      (content : List ℕ)
      → IsManifest bytes
      → Lists keccak256 files entries
      → get_elem? files i ≡ some f
      → All (λ u. IsLogged keccak256 e events latest u.bytes) (expand_file f)
      → IsGzip f.compressed
      → e.gunzip f.compressed ≡ some content
      → fetch e (keccak256 bytes) block (decimal i) ≡ ok content
  fetch-decimal bytes block files i f content m listed at_i logged gzipped unzips =
      fetch-try_gunzip bytes block files i f m listed at_i logged
      ∙ ap ok (try_gunzip-IsGzip e.gunzip f.compressed content gzipped unzips)
