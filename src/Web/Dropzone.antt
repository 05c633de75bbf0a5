-- ===== src/Web/Dropzone.antt =====
-- web/src/components/FileDropzone.tsx: the files of what is dropped or chosen. The browser's entries are
-- the nodes of a folder; the list that it makes of a chosen folder is an argument.
pub mod Paths
use evmfs.Prelude.{
  Bool, true, false, ℕ, ◌==◌, Option, none, some, List, [], ◌∷◌, ◌++◌, keep, map, not,
  if◌then◌else◌,
}
use evmfs.Prelude.Text.{Text}
use evmfs.Cli.Upload.Folder.{Node, Nodes, file, dir, nil, cons, is_hidden, join_path}
use evmfs.Web.Files.{PickedFile}

-- `createFileWithPath`
abbrev pub file_with_path : Text → List ℕ → Text → PickedFile
file_with_path name content path = record { name = name; content = content; relative_path = path }

-- `traverseEntry`, and its loop over the children of a directory
unfoldable mutual
  pub traverse_entry : Text → Node → Text → List PickedFile
  traverse_entry name (file content) base_path =
      file_with_path name content (join_path base_path name) ∷ []
  traverse_entry name (dir children) base_path = traverse_children children base_path

  pub traverse_children : Nodes → Text → List PickedFile
  traverse_children nil base_path = []
  traverse_children (cons child node rest) base_path =
      let here = traverse_entry child node (join_path base_path child) in
      let later = traverse_children rest base_path in
      if is_hidden child then later else here ++ later

-- `handleDrop` for a folder: the children of a dropped directory are listed from the empty path.
unfoldable pub dropped_items : List (Text × Node) → List PickedFile
unfolding traverse_children
dropped_items [] = []
dropped_items ((name, dir children) ∷ items) = traverse_children children [] ++ dropped_items items
dropped_items ((name, file content) ∷ items) =
    file_with_path name content name ∷ dropped_items items

-- A file of an input: its name, its content, and `webkitRelativePath` if the browser gives it.
pub record RawFile : Type 0 where
  pub name : Text
  pub content : List ℕ
  pub webkit_path : Option Text

-- `handleDrop` for files, and `handleChange` for files
abbrev pub loose_files : List RawFile → List PickedFile
loose_files files = map (λ f. file_with_path f.name f.content f.name) files

-- `parts.slice(1).join("/")`: what follows the first slash, if there is one.
unfoldable pub after_slash : Text → Option Text
after_slash [] = none
after_slash (c ∷ path) = let later = after_slash path in if c == b'/' then some path else later

abbrev pub trimmed : Text → Text
trimmed path = elim (after_slash path) [ none ↦ path | some rest ↦ rest ]

abbrev pub raw_path : RawFile → Text
raw_path f = elim f.webkit_path [ none ↦ f.name | some path ↦ path ]

-- `handleChange` for a folder
unfoldable pub chosen_files : List RawFile → List PickedFile
unfolding after_slash
chosen_files files =
    map (λ f. file_with_path f.name f.content (trimmed (raw_path f)))
      (keep (λ f. not (is_hidden f.name)) files)

-- What is passed to `onFiles`, if anything. The dropzone takes nothing when it is disabled.
abbrev pub passed_on : List PickedFile → Option (List PickedFile)
passed_on [] = none
passed_on (f ∷ files) = some (f ∷ files)

abbrev pub handle_drop : Bool → Bool → List (Text × Node) → List RawFile → Option (List PickedFile)
handle_drop disabled is_folder items files =
    if disabled
    then none
    else if is_folder
    then passed_on (dropped_items items)
    else passed_on (loose_files files)

abbrev pub handle_change : Bool → List RawFile → Option (List PickedFile)
handle_change is_folder files =
    if is_folder then passed_on (chosen_files files) else passed_on (loose_files files)
