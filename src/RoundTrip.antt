-- ===== src/RoundTrip.antt =====
-- From cli/src to lib/src: a file that was uploaded, and fetched by its entry.
pub mod Site
pub mod WebPage
pub mod Deploy
use evmfs.Prelude.{
  ℕ, ◌≤◌, ◌<◌, ◌≡◌, ◌≢◌, refl, sym, ◌∙◌, ap, Bool, true, ◌&&◌, Option, none, some, List, [], ◌∷◌,
  map, append-nil, length, ◌==◌, All, ok, arith,
}
use evmfs.Prelude.Text.{Text, truthy}
use evmfs.Prelude.Member.{In}
use evmfs.Prelude.ParseInt.{number, parse_int}
use evmfs.Cli.Batch.{FileEntry, UploadUnit, expand_file}
use evmfs.Cli.Batch.Expand.{joined, joined-expand_file, expand_file-nonempty}
use evmfs.Cli.Manifest.{
  ChunkRef, ManifestEntry, ManifestOutputEntry, single, multipart, build_entry, output_of,
  shown_name,
}
use evmfs.Cli.Upload.Assemble.Entries.{IsEntryOf}
use evmfs.Reader.Abi.{abi_decode_bytes}
use evmfs.Reader.Rpc.{fetch_content}
use evmfs.Reader.Rpc.Scan.{LoggedEvent, Serves}
use evmfs.Reader.Rpc.Found.{fetch_content-finds}
use evmfs.Reader.Evmfs
use evmfs.Reader.Evmfs.{
  Part, Evmfs, FetchError, fetched, try_gunzip, fetch_parts, fetch_single, fetch_entry,
}

abbrev pub part_of : ChunkRef → Part
part_of c = record { h = c.hash; b = c.block }

-- What JSON.parse gives for an entry that JSON.stringify printed.
abbrev pub parsed_entry : ManifestOutputEntry → Evmfs.ManifestEntry
parsed_entry (single h b f) = record { h = some h; b = some b; p = none; f = f }
parsed_entry (multipart p f) = record { h = none; b = none; p = some (map part_of p); f = f }

abbrev pub IsGzip : List ℕ → Type 0
IsGzip [] = ⊥
IsGzip (a ∷ []) = ⊥
IsGzip (a ∷ b ∷ rest) = (a ≡ 0x1f) × (b ≡ 0x8b)

heads : {a b : Text} {xs ys : List Text} → a ∷ xs ≡ b ∷ ys → a ≡ b
heads p = cc

tails : {a b : Text} {xs ys : List Text} → a ∷ xs ≡ b ∷ ys → xs ≡ ys
tails p = cc

pub try_gunzip-IsGzip :
    (gunzip : List ℕ → Option (List ℕ)) (bytes content : List ℕ)
    → IsGzip bytes
    → gunzip bytes ≡ some content
    → try_gunzip gunzip bytes ≡ content
unfolding try_gunzip
try_gunzip-IsGzip gunzip [] content z h = absurd z
try_gunzip-IsGzip gunzip (a ∷ []) content z h = absurd z
try_gunzip-IsGzip gunzip (a ∷ b ∷ rest) content (p, q) h =
    let magic : ((a == 0x1f) && (b == 0x8b)) ≡ true = ground arith in rw (magic, h)

module _ (keccak256 : List ℕ → Text) (e : Evmfs) (events : List LoggedEvent) (latest : ℕ) where
  -- The bytes stand in a log at or below the latest block, and no log of their hash holds others.
  pub record IsLogged (bytes : List ℕ) : Type 0 where
    pub event : LoggedEvent
    pub listed : In event events
    pub hash : event.hash ≡ keccak256 bytes
    pub block : event.block ≤ latest
    pub content :
        (x : LoggedEvent)
        → In x events
        → x.hash ≡ keccak256 bytes
        → abi_decode_bytes x.hex_data ≡ ok bytes
    pub named : keccak256 bytes ≢ []

  module _ (hex : Text) (serves : Serves e.node events) (known : e.node.block_number ≡ some hex)
      (parsed : parse_int 16 hex ≡ number latest) where
    pub fetch_logged :
        (bytes : List ℕ) (hint : Option ℕ)
        → IsLogged bytes
        → fetch_content e.node (keccak256 bytes) hint ≡ ok bytes
    fetch_logged bytes hint l =
        fetch_content-finds e.node events serves (keccak256 bytes) bytes hint hex latest l.event
          l.content known parsed l.listed l.hash l.block

    fetch_units :
        (units : List UploadUnit) (refs : List ChunkRef)
        → map (λ (c : ChunkRef). c.hash) refs ≡ map (λ u. keccak256 u.bytes) units
        → All (λ u. IsLogged u.bytes) units
        → fetch_parts e (map part_of refs) ≡ ok (joined units)
    unfolding fetch_parts
    fetch_units [] [] same h = refl
    fetch_units [] (c ∷ refs) same h = cc
    fetch_units (u ∷ units) [] same h = cc
    fetch_units (u ∷ units) (c ∷ refs) same (l, h) =
        let here : fetch_content e.node c.hash (some c.block) ≡ ok u.bytes =
          ap (λ t. fetch_content e.node t (some c.block)) (heads same)
          ∙ fetch_logged u.bytes (some c.block) l in
        rw (here, fetch_units units refs (tails same) h)

    truthy-ne : (t : Text) → t ≢ [] → truthy (some t) ≡ true
    truthy-ne [] h = absurd (h refl)
    truthy-ne (c ∷ t) h = refl

    fetch_chunks :
        (units : List UploadUnit) (refs : List ChunkRef) (name : Option Text)
        → 0 < length units
        → map (λ (c : ChunkRef). c.hash) refs ≡ map (λ u. keccak256 u.bytes) units
        → All (λ u. IsLogged u.bytes) units
        → fetch_entry e (parsed_entry (output_of refs name))
          ≡ ok (try_gunzip e.gunzip (joined units))
    unfolding fetch_entry fetch_single output_of
    fetch_chunks [] refs name some_unit same h = absurd (omega arith)
    fetch_chunks (u ∷ units) [] name some_unit same h = cc
    fetch_chunks (u ∷ []) (c ∷ []) name some_unit same (l, h) =
        let hash = heads same in
        let here : fetch_content e.node c.hash (some c.block) ≡ ok u.bytes =
          ap (λ t. fetch_content e.node t (some c.block)) hash
          ∙ fetch_logged u.bytes (some c.block) l in
        rw (truthy-ne c.hash (λ p. l.named (sym hash ∙ p)), fetch_single)
          (rw (here, fetch_single)
            (ap (λ t. ok (try_gunzip e.gunzip t)) (sym (append-nil u.bytes))))
    fetch_chunks (u ∷ v ∷ units) (c ∷ []) name some_unit same h = cc
    fetch_chunks (u ∷ units) (c ∷ d ∷ refs) name some_unit same h =
        rw (fetch_units (u ∷ units) (c ∷ d ∷ refs) same h, fetch_entry)

    pub fetch_entry-try_gunzip :
        (f : FileEntry) (entry : ManifestEntry) (include_filenames : Bool)
        → IsEntryOf keccak256 f entry
        → All (λ u. IsLogged u.bytes) (expand_file f)
        → fetch_entry e (parsed_entry (build_entry include_filenames entry))
          ≡ ok (try_gunzip e.gunzip f.compressed)
    unfolding build_entry
    fetch_entry-try_gunzip f entry include_filenames is_entry logged =
        fetch_chunks (expand_file f) entry.chunks (shown_name include_filenames entry.filename)
          (expand_file-nonempty f) is_entry.hashes logged
        ∙ ap ok (ap (try_gunzip e.gunzip) (joined-expand_file f))

    -- Let the node serve the logs, let a manifest entry be made for a file (as a completed upload makes them), let the file's data
    -- be gzip data of `content`, and let every chunk of it be logged at or below the latest block,
    -- where no log of its hash holds other data. Then the library, given the entry that was printed,
    -- returns `content`.
    pub fetch_entry-build_entry :
        (f : FileEntry) (entry : ManifestEntry) (include_filenames : Bool) (content : List ℕ)
        → IsEntryOf keccak256 f entry
        → All (λ u. IsLogged u.bytes) (expand_file f)
        → IsGzip f.compressed
        → e.gunzip f.compressed ≡ some content
        → fetch_entry e (parsed_entry (build_entry include_filenames entry)) ≡ ok content
    fetch_entry-build_entry f entry include_filenames content is_entry logged gzipped unzips =
        fetch_entry-try_gunzip f entry include_filenames is_entry logged
        ∙ ap ok (try_gunzip-IsGzip e.gunzip f.compressed content gzipped unzips)
