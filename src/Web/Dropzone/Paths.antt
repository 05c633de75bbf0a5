-- ===== src/Web/Dropzone/Paths.antt =====
-- web/src/components/FileDropzone.tsx beside `walkDirectory` of cli/src/upload.ts.
use evmfs.Prelude.{
  ℕ, ◌≡◌, refl, ap, ◌∙◌, inl, inr, false, some, List, [], ◌∷◌, ◌++◌, map, ◌==◌, Bool-cases,
  append-nil, ap₂, All, map-append, if◌then◌else◌,
}
use evmfs.Prelude.Text.{Text, codes}
use evmfs.Cli.Upload.Folder.{Nodes, file, dir, nil, cons, is_hidden, join_path, walk, walk_entries}
use evmfs.Web.Files.{PickedFile}
use evmfs.Web.Dropzone.{
  traverse_entry, traverse_children, dropped_items, RawFile, after_slash, trimmed, raw_path,
  chosen_files,
}

-- A file below a folder: the path of its directory, its name and its content.
pub record FileBelow : Type 0 where
  pub directory : Text
  pub name : Text
  pub content : List ℕ

abbrev pub path_of : FileBelow → Text
path_of x = join_path x.directory x.name

-- The files below a folder that are not hidden and stand in no hidden directory.
abbrev pub files_below : Text → Nodes → List FileBelow
files_below directory nil = []
files_below directory (cons child (file content) rest) =
    let later = files_below directory rest in
    if is_hidden child
    then later
    else record { directory = directory; name = child; content = content } ∷ later
files_below directory (cons child (dir nodes) rest) =
    let here = files_below (join_path directory child) nodes in
    let later = files_below directory rest in if is_hidden child then later else here ++ later

-- Every file has the name and the content of a file below, and its path with the name once more.
abbrev pub NamedTwice : List PickedFile → List FileBelow → Type 0
NamedTwice [] [] = Unit
NamedTwice [] (x ∷ below) = ⊥
NamedTwice (f ∷ files) [] = ⊥
NamedTwice (f ∷ files) (x ∷ below) =
    (f.name ≡ x.name)
    × (f.content ≡ x.content)
    × (f.relative_path ≡ join_path (path_of x) x.name)
    × NamedTwice files below

NamedTwice-append :
    (xs ys : List PickedFile) (us vs : List FileBelow)
    → NamedTwice xs us
    → NamedTwice ys vs
    → NamedTwice (xs ++ ys) (us ++ vs)
NamedTwice-append [] ys [] vs h k = k
NamedTwice-append [] ys (u ∷ us) vs h k = absurd h
NamedTwice-append (x ∷ xs) ys [] vs h k = absurd h
NamedTwice-append (x ∷ xs) ys (u ∷ us) vs (name, content, path, h) k =
    (name, content, path, NamedTwice-append xs ys us vs h k)

children-NamedTwice :
    (nodes : Nodes) (base : Text)
    → NamedTwice (traverse_children nodes base) (files_below base nodes)
unfolding traverse_entry traverse_children
children-NamedTwice nil base = tt
children-NamedTwice (cons child (file content) rest) base = elim (Bool-cases (is_hidden child)) [
  | inl e ↦ rw e (children-NamedTwice rest base)
  | inr e ↦ rw e (refl, refl, refl, children-NamedTwice rest base)
]
children-NamedTwice (cons child (dir nodes) rest) base = elim (Bool-cases (is_hidden child)) [
  | inl e ↦ rw e (children-NamedTwice rest base)
  | inr e ↦ rw e (
      NamedTwice-append (traverse_children nodes (join_path base child))
        (traverse_children rest base) (files_below (join_path base child) nodes)
        (files_below base rest) (children-NamedTwice nodes (join_path base child))
        (children-NamedTwice rest base))
]

-- A file's path and content, as `walkDirectory` lists them.
abbrev pub listed : FileBelow → Text × List ℕ
listed x = (path_of x, x.content)

files_below-walk_entries :
    (nodes : Nodes) (base : Text) → map listed (files_below base nodes) ≡ walk_entries base nodes
unfolding walk walk_entries
files_below-walk_entries nil base = refl
files_below-walk_entries (cons child (file content) rest) base =
    elim (Bool-cases (is_hidden child)) [
      | inl e ↦ rw e (files_below-walk_entries rest base)
      | inr e ↦
          rw e (ap (λ t. (join_path base child, content) ∷ t) (files_below-walk_entries rest base))
    ]
files_below-walk_entries (cons child (dir nodes) rest) base = elim (Bool-cases (is_hidden child)) [
  | inl e ↦ rw e (files_below-walk_entries rest base)
  | inr e ↦
      let inner = join_path base child in
      rw e (
        map-append listed (files_below inner nodes) (files_below base rest)
        ∙ ap₂ ◌++◌ (files_below-walk_entries nodes inner) (files_below-walk_entries rest base))
]

-- A folder that is dropped gives the files below it that are not hidden, each with its own name and
-- content, in the order of the folder; but every path has the file's name once more: "a.html" becomes
-- "a.html/a.html". `walkDirectory`, before it sorts, lists the same files with their own paths.
pub dropped_items-NamedTwice :
    (folder : Text) (nodes : Nodes)
    → NamedTwice (dropped_items ((folder, dir nodes) ∷ [])) (files_below [] nodes)
      × (map listed (files_below [] nodes) ≡ walk_entries [] nodes)
unfolding dropped_items
dropped_items-NamedTwice folder nodes = (
  rw (append-nil (traverse_children nodes [])) (children-NamedTwice nodes []),
  files_below-walk_entries nodes [],
)

-- What a browser gives for a chosen folder: every file below it, with the path from the folder on.
abbrev pub browser_list : Text → Text → Nodes → List RawFile
browser_list folder base nil = []
browser_list folder base (cons child (file content) rest) =
    record {
      name = child;
      content = content;
      webkit_path = some (folder ++ codes "/" ++ join_path base child);
    }
    ∷ browser_list folder base rest
browser_list folder base (cons child (dir nodes) rest) =
    browser_list folder (join_path base child) nodes ++ browser_list folder base rest

-- No directory below is hidden.
abbrev pub ShowsDirectories : Nodes → Type 0
ShowsDirectories nil = Unit
ShowsDirectories (cons child (file content) rest) = ShowsDirectories rest
ShowsDirectories (cons child (dir nodes) rest) =
    (is_hidden child ≡ false) × ShowsDirectories nodes × ShowsDirectories rest

abbrev pub located : List PickedFile → List (Text × List ℕ)
located = map (λ f. (f.relative_path, f.content))

after_slash_folder :
    (folder path : Text)
    → All (λ c. (c == b'/') ≡ false) folder
    → after_slash (folder ++ codes "/" ++ path) ≡ some path
unfolding after_slash
after_slash_folder [] path h = refl
after_slash_folder (c ∷ folder) path (e, h) = rw e (after_slash_folder folder path h)

trimmed_folder :
    (folder path : Text)
    → All (λ c. (c == b'/') ≡ false) folder
    → trimmed (folder ++ codes "/" ++ path) ≡ path
trimmed_folder folder path h = rw (after_slash_folder folder path h, trimmed) refl

chosen_files-append :
    (xs ys : List RawFile)
    → located (chosen_files (xs ++ ys)) ≡ located (chosen_files xs) ++ located (chosen_files ys)
unfolding chosen_files
chosen_files-append [] ys = refl
chosen_files-append (x ∷ xs) ys = elim (Bool-cases (is_hidden x.name)) [
  | inl e ↦ rw e (chosen_files-append xs ys)
  | inr e ↦ rw e (ap (λ t. (trimmed (raw_path x), x.content) ∷ t) (chosen_files-append xs ys))
]

module _ (folder : Text) (plain : All (λ c. (c == b'/') ≡ false) folder) where
  chosen_list :
      (nodes : Nodes) (base : Text)
      → ShowsDirectories nodes
      → located (chosen_files (browser_list folder base nodes)) ≡ walk_entries base nodes
  unfolding chosen_files walk walk_entries
  chosen_list nil base h = refl
  chosen_list (cons child (file content) rest) base h = elim (Bool-cases (is_hidden child)) [
    | inl e ↦ rw e (chosen_list rest base h)
    | inr e ↦
        rw (e, trimmed_folder folder (join_path base child) plain)
          (ap (λ t. (join_path base child, content) ∷ t) (chosen_list rest base h))
  ]
  chosen_list (cons child (dir nodes) rest) base (shown, below, beside) =
      let inner = browser_list folder (join_path base child) nodes in
      rw shown (
        chosen_files-append inner (browser_list folder base rest)
        ∙ ap₂ ◌++◌ (chosen_list nodes (join_path base child) below) (chosen_list rest base beside))

  -- A folder that is chosen, of a name with no slash, is listed as `walkDirectory` lists it before it
  -- sorts, with the same paths and contents, if no directory below it is hidden and the browser gives
  -- every file below it with its path from the folder on.
  pub chosen_files-walk_entries :
      (nodes : Nodes) (files : List RawFile)
      → files ≡ browser_list folder [] nodes
      → ShowsDirectories nodes
      → located (chosen_files files) ≡ walk_entries [] nodes
  chosen_files-walk_entries nodes files same h =
      ap (λ l. located (chosen_files l)) same ∙ chosen_list nodes [] h
