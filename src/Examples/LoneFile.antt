-- ===== src/Examples/LoneFile.antt =====
-- What the manifest of a lone file of one chunk can be.
use evmfs.Prelude.{ℕ, ◌≡◌, refl, sym, ◌∙◌, ap, true, Option, none, some, List, [], ◌∷◌, ◌++◌, map}
use evmfs.Prelude.Text.{Text}
use evmfs.Contract.{Call, store_manifest}
use evmfs.Cli.Batch.{FileEntry, expand_file}
use evmfs.Cli.Manifest.{ChunkRef, ManifestEntry, build_entry, shown_name, manifest_json}
use evmfs.Cli.Manifest.Json.{manifest_json-block}
use evmfs.Cli.Upload.Assemble.Entries.{Lists}
use evmfs.Examples.World.{hash, zip}

abbrev pub last_call : List Call → Option Call
last_call [] = none
last_call (c ∷ []) = some c
last_call (c ∷ d ∷ cs) = last_call (d ∷ cs)

last_call_append : (calls : List Call) (c : Call) → last_call (calls ++ c ∷ []) ≡ some c
last_call_append [] c = refl
last_call_append (b ∷ []) c = refl
last_call_append (b ∷ d ∷ calls) c = last_call_append (d ∷ calls) c

bytes_of : (a b : List ℕ) → some (store_manifest a) ≡ some (store_manifest b) → a ≡ b
bytes_of a b e = cc

text_of : (a b : List ℕ) → zip a ≡ zip b → a ≡ b
text_of a b e = cc

abbrev pub lone : Text → Text → ℕ → List ManifestEntry
lone name h b = record { filename = name; chunks = record { hash = h; block = b } ∷ [] } ∷ []

lone_entry :
    (f : FileEntry) (h : Text) (entries : List ManifestEntry)
    → map (λ u. hash u.bytes) (expand_file f) ≡ h ∷ []
    → Lists hash (f ∷ []) entries
    → (b : ℕ) × (entries ≡ lone f.filename h b)
lone_entry f h [] one l = absurd l
lone_entry f h (e ∷ d ∷ entries) one (own, l) = absurd l
lone_entry f h (e ∷ []) one (own, l) = chunks_of e.chunks (own.hashes ∙ one) refl
  where
    chunks_of :
        (chunks : List ChunkRef)
        → map (λ (c : ChunkRef). c.hash) chunks ≡ h ∷ []
        → e.chunks ≡ chunks
        → (b : ℕ) × (e ∷ [] ≡ lone f.filename h b)
    chunks_of [] k same = cc
    chunks_of (c ∷ d ∷ chunks) k same = cc
    chunks_of (c ∷ []) k same =
        let named : c.hash ≡ h = cc in
        (
          c.block,
          λ j.
              record {
                filename = own.filename j;
                chunks = (same ∙ (λ k. record { hash = named k; block = c.block } ∷ [])) j;
              }
              ∷ [],
        )

-- If the last call stores the manifest of entries that list the file, they are those of the stored text.
pub lone_manifest :
    (f : FileEntry) (h : Text) (b : ℕ) (entries : List ManifestEntry) (calls sent : List Call)
    → map (λ u. hash u.bytes) (expand_file f) ≡ h ∷ []
    → Lists hash (f ∷ []) entries
    → last_call sent
      ≡ some (store_manifest (zip (manifest_json (map (build_entry true) (lone f.filename h b)))))
    → sent ≡ calls ++ store_manifest (zip (manifest_json (map (build_entry true) entries))) ∷ []
    → entries ≡ lone f.filename h b
unfolding build_entry
lone_manifest f h b entries calls sent one l ends same =
    let (c, only) = lone_entry f h entries one l in
    let text : List ManifestEntry → Text = λ es. manifest_json (map (build_entry true) es) in
    let now : zip (text (lone f.filename h b)) ≡ zip (text entries) = bytes_of _ _ (
      sym ends
      ∙ ap last_call same
      ∙ last_call_append calls (store_manifest (zip (text entries)))) in
    let block : b ≡ c =
      manifest_json-block h b c (shown_name true f.filename) (text_of _ _ now ∙ ap text only) in
    only ∙ sym (ap (lone f.filename h) block)
