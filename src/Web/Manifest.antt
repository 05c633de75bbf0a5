-- ===== src/Web/Manifest.antt =====
-- web/src/lib/evmfs.ts: the manifest's entries, from the confirmed units.
pub mod Entries
use evmfs.Prelude.{
  ℕ, zero, suc, ◌==◌, Option, none, some, List, [], ◌∷◌, map, Result, ok, err, ◌>>=◌, if◌then◌else◌,
}
use evmfs.Prelude.Text.{Text}
use evmfs.Cli.Manifest.{ChunkRef, ManifestOutputEntry, single, multipart}
use evmfs.Cli.Upload.Assemble.{ref_of, file_chunks}
use evmfs.Web.Progress.{ConfirmedUnit}

-- `if (fname) entry.f = fname`
unfoldable pub set_name : Option Text → Option Text
set_name none = none
set_name (some []) = none
set_name (some (c ∷ fname)) = some (c ∷ fname)

-- The entry for a file's units; a lone unit of a larger file makes a multipart entry.
unfoldable pub entry_for : List ConfirmedUnit → Option Text → ManifestOutputEntry
entry_for (c ∷ []) f =
    if c.total_chunks == 1 then single c.hash c.block f else multipart (ref_of c ∷ []) f
entry_for chunks f = multipart (map ref_of chunks) f

-- The loop over the files from index `i`; the first file with no units is thrown.
unfoldable pub entries_for :
    ℕ → ℕ → List ConfirmedUnit → (ℕ → Option Text) → Result ℕ (List ManifestOutputEntry)
unfolding set_name entry_for
entries_for i zero confirmed filenames = ok []
entries_for i (suc left) confirmed filenames =
    let rest = entries_for (suc i) left confirmed filenames in
    elim (file_chunks i confirmed) [
      | [] ↦ err i
      | c ∷ chunks ↦ (do out ← rest; ok (entry_for (c ∷ chunks) (set_name (filenames i)) ∷ out))
    ]

-- `buildManifestEntries`. `file_chunks`, the grouping and sorting of the chunks by file, is the same in
-- the command line client.
unfoldable pub build_manifest_entries :
    ℕ → List ConfirmedUnit → (ℕ → Option Text) → Result ℕ (List ManifestOutputEntry)
unfolding entries_for
build_manifest_entries file_count confirmed filenames = entries_for 0 file_count confirmed filenames

-- `getDisplayHash`
abbrev pub get_display_hash : ManifestOutputEntry → Text
get_display_hash (single h b f) = h
get_display_hash (multipart [] f) = []
get_display_hash (multipart (c ∷ p) f) = c.hash
