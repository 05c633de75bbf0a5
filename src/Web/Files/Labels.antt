-- ===== src/Web/Files/Labels.antt =====
-- `handleFiles` of web/src/App.tsx: the names of a site's files, by index.
use evmfs.Prelude.{
  ℕ, suc, ◌+◌, ◌≡◌, ◌↔◌, refl, ap, ap₂, ◌∙◌, Bool, Option, some, List, [], ◌∷◌, map, get_elem?,
  arith,
}
use evmfs.Prelude.Text.{Text}
use evmfs.Prelude.Sort.{sort}
use evmfs.Web.Units.{FileEntry}
use evmfs.Web.Files.{PickedFile, entries_of, process_files, handle_site, name_le, path_le}

abbrev pub paths : List PickedFile → List Text
paths = map (λ f. f.relative_path)

-- The entry of a file under an index, with the path that the index is given.
abbrev pub Labelled : (ℕ → Option Text) → List PickedFile → List FileEntry → Type 0
Labelled labels [] [] = Unit
Labelled labels [] (e ∷ entries) = ⊥
Labelled labels (f ∷ files) [] = ⊥
Labelled labels (f ∷ files) (e ∷ entries) =
    (labels e.index ≡ some f.relative_path) × (e.file ≡ f.content) × Labelled labels files entries

abbrev pub contents : List PickedFile → List (List ℕ)
contents = map (λ f. f.content)

module _ (labels : ℕ → Option Text) where
  -- From an index on, the labels are the paths of the files.
  abbrev NamesFrom : ℕ → List PickedFile → Type 0
  NamesFrom i files = (k : ℕ) → labels (i + k) ≡ get_elem? (paths files) k

  next_names :
      (i : ℕ) (f : PickedFile) (files : List PickedFile)
      → NamesFrom i (f ∷ files)
      → NamesFrom (suc i) files
  next_names i f files h k = let e : suc i + k ≡ i + suc k = omega arith in ap labels e ∙ h (suc k)

  first_name :
      (i : ℕ) (f : PickedFile) (files : List PickedFile)
      → NamesFrom i (f ∷ files)
      → labels i ≡ some f.relative_path
  first_name i f files h = let e : i ≡ i + 0 = omega arith in ap labels e ∙ h 0

  Labelled-contents :
      (i : ℕ) (files picked : List PickedFile)
      → NamesFrom i files
      → Labelled labels files (entries_of i picked)
      → contents picked ≡ contents files
  unfolding entries_of
  Labelled-contents i [] [] h l = refl
  Labelled-contents i [] (p ∷ picked) h l = absurd l
  Labelled-contents i (f ∷ files) [] h l = absurd l
  Labelled-contents i (f ∷ files) (p ∷ picked) h (name, same, l) =
      ap₂ ◌∷◌ same (Labelled-contents (suc i) files picked (next_names i f files h) l)

  contents-Labelled :
      (i : ℕ) (files picked : List PickedFile)
      → NamesFrom i files
      → contents picked ≡ contents files
      → Labelled labels files (entries_of i picked)
  unfolding entries_of
  contents-Labelled i [] [] h e = tt
  contents-Labelled i [] (p ∷ picked) h e = cc
  contents-Labelled i (f ∷ files) [] h e = cc
  contents-Labelled i (f ∷ files) (p ∷ picked) h e = (
    first_name i f files h,
    cc,
    contents-Labelled (suc i) files picked (next_names i f files h) cc,
  )

zeroth_names : (files : List PickedFile) → NamesFrom (get_elem? (paths files)) 0 files
zeroth_names files k = let e : 0 + k ≡ k = omega arith in ap (get_elem? (paths files)) e

module _ (locale_le : Text → Text → Bool) (files : List PickedFile) where
  -- The paths that a site upload gives to the indices go with the contents that are uploaded under
  -- them exactly when sorting by base name leaves the contents in the order of the paths.
  pub handle_site-Labelled_iff :
      let (labels, processed) = handle_site locale_le files in
      let sorted = sort (path_le locale_le) files in
      Labelled labels sorted processed.files
      ↔ (contents (sort (name_le locale_le) sorted) ≡ contents sorted)
  unfolding handle_site process_files
  handle_site-Labelled_iff =
      let sorted = sort (path_le locale_le) files in
      let labels = get_elem? (paths sorted) in
      (
        Labelled-contents labels 0 sorted (sort (name_le locale_le) sorted) (zeroth_names sorted),
        contents-Labelled labels 0 sorted (sort (name_le locale_le) sorted) (zeroth_names sorted),
      )
