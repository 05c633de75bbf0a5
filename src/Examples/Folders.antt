-- ===== src/Examples/Folders.antt =====
-- A folder with a hidden file and a directory.
use evmfs.Prelude.{◌≡◌, refl, [], ◌∷◌, map}
use evmfs.Prelude.Text.{codes}
use evmfs.Cli.Upload.Folder.{Nodes, file, dir, nil, cons, walk_entries}
use evmfs.Web.Dropzone.{dropped_items, chosen_files}
use evmfs.Web.Dropzone.Paths.{
  NamedTwice, files_below, listed, browser_list, located, dropped_items-NamedTwice,
  chosen_files-walk_entries,
}

abbrev folder : Nodes
folder = cons (codes ".env") (file (9 ∷ [])) (
    cons (codes "css") (dir (cons (codes "a.css") (file (1 ∷ [])) nil))
      (cons (codes "index.html") (file (2 ∷ [])) nil))

dropped_items-NamedTwice_example :
    NamedTwice (dropped_items ((codes "site", dir folder) ∷ [])) (files_below [] folder)
    × (map listed (files_below [] folder) ≡ walk_entries [] folder)
dropped_items-NamedTwice_example = dropped_items-NamedTwice (codes "site") folder

chosen_files-walk_entries_example :
    located (chosen_files (browser_list (codes "site") [] folder)) ≡ walk_entries [] folder
chosen_files-walk_entries_example =
    chosen_files-walk_entries (codes "site") (refl, (refl, (refl, (refl, tt)))) folder
      (browser_list (codes "site") [] folder) refl (refl, tt, tt)

-- What is dropped carries the name of the file twice.
named_twice :
    located (dropped_items ((codes "site", dir folder) ∷ []))
    ≡ (codes "css/a.css/a.css", 1 ∷ []) ∷ (codes "index.html/index.html", 2 ∷ []) ∷ []
unfolding dropped_items
named_twice = refl
