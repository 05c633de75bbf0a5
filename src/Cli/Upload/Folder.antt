-- ===== src/Cli/Upload/Folder.antt =====
-- cli/src/upload.ts: the files of a folder, as `uploadCommand` lists them and `walkDirectory` does.
use evmfs.Prelude.{ℕ, suc, Bool, false, List, [], ◌∷◌, ◌++◌, ◌==◌, if◌then◌else◌}
use evmfs.Prelude.Text.{Text, codes, text_leb}
use evmfs.Prelude.Sort.{sort}
use evmfs.Cli.Batch.{FileEntry}

-- A folder's entries, with the content that is read.
mutual
  pub data Node : Type 0 where
    file : List ℕ → Node
    dir : Nodes → Node

  pub data Nodes : Type 0 where
    nil : Nodes
    cons : Text → Node → Nodes → Nodes

-- `f.startsWith(".")`
abbrev pub is_hidden : Text → Bool
is_hidden [] = false
is_hidden (c ∷ name) = c == b'.'

abbrev by_name : Text × List ℕ → Text × List ℕ → Bool
by_name a b = text_leb a.0 b.0

-- The files that `uploadCommand` reads: those of the folder itself that are not hidden.
plain_files : Nodes → List (Text × List ℕ)
plain_files nil = []
plain_files (cons name (dir _) rest) = plain_files rest
plain_files (cons name (file content) rest) =
    if is_hidden name then plain_files rest else (name, content) ∷ plain_files rest

unfoldable pub list_files : Nodes → List (Text × List ℕ)
unfolding plain_files
list_files nodes = sort by_name (plain_files nodes)

-- `prefix ? `${prefix}/${entry}` : entry`
abbrev pub join_path : Text → Text → Text
join_path [] entry = entry
join_path (c ∷ prefix) entry = (c ∷ prefix) ++ (codes "/" ++ entry)

unfoldable mutual
  pub walk : Text → Node → List (Text × List ℕ)
  walk path (file content) = (path, content) ∷ []
  walk path (dir nodes) = walk_entries path nodes

  pub walk_entries : Text → Nodes → List (Text × List ℕ)
  walk_entries prefix nil = []
  walk_entries prefix (cons entry node rest) =
      let here = walk (join_path prefix entry) node in
      let later = walk_entries prefix rest in if is_hidden entry then later else here ++ later

-- `walkDirectory`, with the content of the files.
unfoldable pub walk_directory : Nodes → List (Text × List ℕ)
unfolding walk walk_entries
walk_directory nodes = sort by_name (walk_entries [] nodes)

-- `filenames.map((filename, index) => …)`
unfoldable pub file_entries : (List ℕ → List ℕ) → ℕ → List (Text × List ℕ) → List FileEntry
file_entries gzip i [] = []
file_entries gzip i ((name, content) ∷ rest) =
    record { index = i; filename = name; compressed = gzip content }
    ∷ file_entries gzip (suc i) rest
