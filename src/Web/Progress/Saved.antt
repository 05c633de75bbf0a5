-- ===== src/Web/Progress/Saved.antt =====
-- web/src/lib/evmfs.ts: saving and loading progress, and which files it is for.
use evmfs.Prelude.{
  ℕ, ◌+◌, ◌≤◌, ◌≡◌, refl, ◌∙◌, ap, ap₂, ◌↔◌, true, false, ◌&&◌, some, List, [], ◌∷◌, map, length,
  length-map, both, joint, ltb, ◌==◌, ==_iff, arith,
}
use evmfs.Prelude.Text.{Text, text_eq_iff, to_lower}
use evmfs.Web.Units.{FileEntry}
use evmfs.Web.Progress.{
  ConfirmedUnit, SavedProgress, Stored, unit, migrated, one_day, save_progress, load_progress,
  same_names, progress_matches_files,
}

migrated-unit : (confirmed : List ConfirmedUnit) → map migrated (map unit confirmed) ≡ confirmed
unfolding migrated
migrated-unit [] = refl
migrated-unit (c ∷ confirmed) = ap (λ t. c ∷ t) (migrated-unit confirmed)

-- Progress that was saved is loaded as it was for a day.
pub load_progress-save_progress :
    (p : SavedProgress) (storage : Stored) (now : ℕ)
    → now ≤ p.saved_at + one_day
    → (load_progress now (save_progress false p storage)).0 ≡ some p
unfolding load_progress save_progress
load_progress-save_progress p storage now h =
    let fresh : ltb (p.saved_at + one_day) now ≡ false = ground arith in
    rw fresh (λ i. some (record p { confirmed = migrated-unit p.confirmed i }))

same_names-eq :
    (names : List Text) (files : List FileEntry)
    → ((length names == length files) && same_names names files) ≡ true
    → names ≡ map (λ f. f.name) files
unfolding same_names
same_names-eq [] [] h = refl
same_names-eq [] (f ∷ files) h = absurd (ground arith)
same_names-eq (name ∷ names) [] h = absurd (ground arith)
same_names-eq (name ∷ names) (f ∷ files) h =
    let counted : length (name ∷ names) ≡ length (f ∷ files) = (==_iff _ _).0 (both h).0 in
    let shorter : (length names == length files) ≡ true = (==_iff _ _).1 (omega arith) in
    let (first, rest) = both (both h).1 in
    ap₂ (λ x xs. x ∷ xs) ((text_eq_iff name f.name).0 first)
      (same_names-eq names files (joint shorter rest))

same_names_refl : (files : List FileEntry) → same_names (map (λ f. f.name) files) files ≡ true
unfolding same_names
same_names_refl [] = refl
same_names_refl (f ∷ files) = joint ((text_eq_iff f.name f.name).1 refl) (same_names_refl files)

-- Progress is taken up exactly for the same chain, the same contract whatever the case of its letters,
-- and files of the same names in the same order.
pub progress_matches_files_iff :
    (p : SavedProgress) (files : List FileEntry) (chain_id : ℕ) (contract_address : Text)
    → (progress_matches_files p files chain_id contract_address ≡ true) ↔ (
        (p.chain_id ≡ chain_id)
        × (to_lower p.contract_address ≡ to_lower contract_address)
        × (p.file_names ≡ map (λ f. f.name) files))
unfolding progress_matches_files
progress_matches_files_iff p files chain_id contract_address = (
  λ h.
      let (a, h1) = both h in
      let (b, c) = both h1 in
      ((==_iff _ _).0 a, (text_eq_iff _ _).0 b, same_names-eq p.file_names files c),
  λ h.
      let (a, b, c) = h in
      let n : (length p.file_names == length files) ≡ true =
        (==_iff _ _).1 (ap length c ∙ length-map files (λ f. f.name)) in
      let s : same_names p.file_names files ≡ true =
        ap (λ t. same_names t files) c ∙ same_names_refl files in
      joint ((==_iff _ _).1 a) (joint ((text_eq_iff _ _).1 b) (joint n s)),
)
