-- ===== src/Cli/Manifest.antt =====
-- cli/src/manifest.ts: the manifest of an upload, and the progress file.
use evmfs.Prelude.{
  ℕ, ◌+◌, ◌/◌, ◌%◌, Bool, true, false, ◌||◌, Option, none, some, List, [], ◌∷◌, ◌++◌, map, ltb,
  ◌==◌, if◌then◌else◌, ◌≡◌, refl,
}
pub mod State
pub mod Json
use mathlib.Core.Option
use evmfs.Prelude.Text.{Text, codes, text_eq}
use evmfs.Prelude.Digits.{decimal, digit_char}
use evmfs.Prelude.ParseInt.{Parsed, nan, number, negative, parse_int}

pub record ChunkRef : Type 0 where
  pub hash : Text
  pub block : ℕ

pub record ManifestEntry : Type 0 where
  pub filename : Text
  pub chunks : List ChunkRef

-- `ManifestOutputSingle` has h and b, `ManifestOutputMultipart` p; `none` is an absent f.
pub data ManifestOutputEntry : Type 0 where
  single : Text → ℕ → Option Text → ManifestOutputEntry
  multipart : List ChunkRef → Option Text → ManifestOutputEntry

-- `includeFilenames && e.filename`
unfoldable pub shown_name : Bool → Text → Option Text
shown_name false filename = none
shown_name true [] = none
shown_name true (c ∷ filename) = some (c ∷ filename)

unfoldable pub output_of : List ChunkRef → Option Text → ManifestOutputEntry
output_of (c ∷ []) f = single c.hash c.block f
output_of chunks f = multipart chunks f

unfoldable pub build_entry : Bool → ManifestEntry → ManifestOutputEntry
unfolding output_of shown_name
build_entry include_filenames e = output_of e.chunks (shown_name include_filenames e.filename)

-- `\u00` and the two hexadecimal digits of a control character.
abbrev escape_control : ℕ → Text
escape_control c = codes "\\u00" ++ digit_char (c / 16) ∷ digit_char (c % 16) ∷ []

-- A character of a string, as JSON.stringify writes it.
escape : ℕ → Text
unfolding digit_char
escape c =
    if c == 34
    then codes "\\\""
    else if c == 92
    then codes "\\\\"
    else if c == 8
    then codes "\\b"
    else if c == 9
    then codes "\\t"
    else if c == 10
    then codes "\\n"
    else if c == 12
    then codes "\\f"
    else if c == 13
    then codes "\\r"
    else if ltb c 32
    then escape_control c
    else c ∷ []

escaped : Text → Text
escaped [] = []
escaped (c ∷ s) = escape c ++ escaped s

quoted : Text → Text
quoted s = 34 ∷ escaped s ++ 34 ∷ []

ref_json : ChunkRef → Text
ref_json c = codes "{\"h\":" ++ quoted c.hash ++ codes ",\"b\":" ++ decimal c.block ++ codes "}"

name_json : Option Text → Text
name_json none = codes "}"
name_json (some f) = codes ",\"f\":" ++ quoted f ++ codes "}"

-- The elements of an array after the first.
more_refs : List ChunkRef → Text
more_refs [] = codes "]"
more_refs (c ∷ cs) = codes "," ++ ref_json c ++ more_refs cs

refs_json : List ChunkRef → Text
refs_json [] = codes "[]"
refs_json (c ∷ cs) = codes "[" ++ ref_json c ++ more_refs cs

entry_json : ManifestOutputEntry → Text
entry_json (single h b f) =
    codes "{\"h\":" ++ quoted h ++ codes ",\"b\":" ++ decimal b ++ name_json f
entry_json (multipart p f) = codes "{\"p\":" ++ refs_json p ++ name_json f

more_entries : List ManifestOutputEntry → Text
more_entries [] = codes "]"
more_entries (e ∷ es) = codes "," ++ entry_json e ++ more_entries es

-- `JSON.stringify(output)`
unfoldable pub manifest_json : List ManifestOutputEntry → Text
unfolding escape escaped quoted ref_json name_json more_refs refs_json entry_json more_entries
    decimal
manifest_json [] = codes "[]"
manifest_json (e ∷ es) = codes "[" ++ entry_json e ++ more_entries es

-- `buildManifest`; `gzip` is `gzipSync` on the UTF-8 bytes of the text.
unfoldable pub build_manifest : (Text → List ℕ) → List ManifestEntry → Bool → Text × List ℕ
unfolding build_entry
build_manifest gzip entries include_filenames =
    let json = manifest_json (map (build_entry include_filenames) entries) in (json, gzip json)

manifest_json_test :
    manifest_json (single (codes "0xab") 7 none ∷ multipart [] (some (codes "a\"b")) ∷ [])
    ≡ codes "[{\"h\":\"0xab\",\"b\":7},{\"p\":[],\"f\":\"a\\\"b\"}]"
unfolding manifest_json
manifest_json_test = refl

-- A value of the local manifest: a hash, or `{ parts: … }`.
pub data LocalEntry : Type 0 where
  whole : Text → LocalEntry
  parts : List ChunkRef → LocalEntry

abbrev local_of : List ChunkRef → LocalEntry
local_of (c ∷ []) = whole c.hash
local_of chunks = parts chunks

-- `mapping[key] = v`
set_key : Text → LocalEntry → List (Text × LocalEntry) → List (Text × LocalEntry)
set_key k v [] = (k, v) ∷ []
set_key k v ((j, w) ∷ m) = if text_eq j k then (j, v) ∷ m else (j, w) ∷ set_key k v m

mapping_from : List (Text × LocalEntry) → List ManifestEntry → List (Text × LocalEntry)
mapping_from m [] = m
mapping_from m (e ∷ entries) = mapping_from (set_key e.filename (local_of e.chunks) m) entries

-- The mapping that `saveLocalManifest` writes.
unfoldable pub local_manifest : List ManifestEntry → List (Text × LocalEntry)
unfolding set_key mapping_from
local_manifest entries = mapping_from [] entries

pub record ConfirmedChunk : Type 0 where
  pub file_index : ℕ
  pub chunk_index : ℕ
  pub total_chunks : ℕ
  pub hash : Text
  pub block : ℕ

pub record UploadState : Type 0 where
  pub folder : Text
  pub contract_address : Text
  pub chain_id : Text
  pub chunks : List ConfirmedChunk
  pub manifest_hash : Option Text

-- The parsed progress file: `chunks` if it is an array, `uploaded` if it is there.
pub record SavedFile : Type 0 where
  pub folder : Text
  pub contract_address : Text
  pub chain_id : Text
  pub chunks : Option (List ConfirmedChunk)
  pub uploaded : Option (List (Text × Text))
  pub manifest_hash : Option Text

-- `parseInt(idx, 10)`. A key that gives NaN or a negative index is left out here: no unit has such an
-- index, and `uploadCommand` discards the entry as stale.
abbrev key_index : Parsed → Option ℕ
key_index nan = none
key_index (number n) = some n
key_index (negative n) = if n == 0 then some 0 else none

abbrev legacy_chunk : ℕ → Text → ConfirmedChunk
legacy_chunk index hash = record {
  file_index = index;
  chunk_index = 0;
  total_chunks = 1;
  hash = hash;
  block = 0;
}

unfoldable pub legacy_chunks : List (Text × Text) → List ConfirmedChunk
unfolding parse_int
legacy_chunks [] = []
legacy_chunks ((idx, hash) ∷ rest) =
    let later = legacy_chunks rest in
    elim (key_index (parse_int 10 idx)) [
      | none ↦ later
      | some index ↦ legacy_chunk index hash ∷ later
    ]

abbrev state_with : SavedFile → List ConfirmedChunk → UploadState
state_with raw chunks = record {
  folder = raw.folder;
  contract_address = raw.contract_address;
  chain_id = raw.chain_id;
  chunks = chunks;
  manifest_hash = raw.manifest_hash;
}

-- `loadUploadState`, from the file if there is one.
unfoldable pub load_upload_state : Option SavedFile → Option UploadState
load_upload_state none = none
load_upload_state (some raw) = elim raw.chunks [
  | some chunks ↦ some (state_with raw chunks)
  | none ↦ Option.map (λ uploaded. state_with raw (legacy_chunks uploaded)) raw.uploaded
]

-- `saveUploadState`: the file that is written.
unfoldable pub save_upload_state : UploadState → SavedFile
save_upload_state state = record {
  folder = state.folder;
  contract_address = state.contract_address;
  chain_id = state.chain_id;
  chunks = some state.chunks;
  uploaded = none;
  manifest_hash = state.manifest_hash;
}
