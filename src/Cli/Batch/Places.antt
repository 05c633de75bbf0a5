-- ===== src/Cli/Batch/Places.antt =====
-- cli/src/batch.ts, `expandFilesToUnits`: the places of all units.
use evmfs.Prelude.{
  ℕ, suc, ◌≤◌, ◌≡◌, refl, inl, inr, Bool, List, [], ◌∷◌, ◌++◌, keep, All, All-append, Bool-cases,
  arith,
}
use evmfs.Prelude.Member.{In, All-In, In-All, In-append_left, In-keep}
use evmfs.Cli.Batch.{FileEntry, UploadUnit, expand_file, expand_files_to_units}
use evmfs.Cli.Batch.Files.{IndexedFrom, ConsecutiveFrom, expand_file-Consecutive, expand_file-file}

abbrev pub SamePlace : UploadUnit → UploadUnit → Type 0
SamePlace u v = (v.file_index ≡ u.file_index) × (v.chunk_index ≡ u.chunk_index)

abbrev pub HasUniqueUnits : List UploadUnit → Type 0
HasUniqueUnits [] = Unit
HasUniqueUnits (u ∷ units) = All (λ v. ¬ SamePlace u v) units × HasUniqueUnits units

HasUniqueUnits-append :
    (us vs : List UploadUnit)
    → HasUniqueUnits us
    → HasUniqueUnits vs
    → ((u v : UploadUnit) → In u us → In v vs → ¬ SamePlace u v)
    → HasUniqueUnits (us ++ vs)
HasUniqueUnits-append [] vs h k apart = k
HasUniqueUnits-append (u ∷ us) vs (new, h) k apart = (
  All-append (λ v. ¬ SamePlace u v) us vs new
      (All-In (λ v. ¬ SamePlace u v) vs (λ v i. apart u v (inl refl) i)),
  HasUniqueUnits-append us vs h k (λ x v i. apart x v (inr i)),
)

pub HasUniqueUnits-keep :
    (p : UploadUnit → Bool) (units : List UploadUnit)
    → HasUniqueUnits units
    → HasUniqueUnits (keep p units)
HasUniqueUnits-keep p [] h = tt
HasUniqueUnits-keep p (u ∷ units) (new, h) = elim (Bool-cases (p u)) [
  | inl e ↦ rw e (
    All-In (λ v. ¬ SamePlace u v) (keep p units)
        (λ v i. In-All (λ v. ¬ SamePlace u v) units v new ((In-keep p v units).0 i).0),
    HasUniqueUnits-keep p units h,
  )
  | inr e ↦ rw e (HasUniqueUnits-keep p units h)
]

later_place :
    (i : ℕ) (units : List UploadUnit) → ConsecutiveFrom i units → All (λ u. i ≤ u.chunk_index) units
later_place i [] x = tt
later_place i (u ∷ units) (e, x) = (
  omega arith,
  All-In (λ v. i ≤ v.chunk_index) units
      (λ v j.
        let h = In-All (λ v. suc i ≤ v.chunk_index) units v (later_place (suc i) units x) j in
        omega arith),
)

Consecutive-unique :
    (i : ℕ) (units : List UploadUnit) → ConsecutiveFrom i units → HasUniqueUnits units
Consecutive-unique i [] x = tt
Consecutive-unique i (u ∷ units) (e, x) = (
  All-In (λ v. ¬ SamePlace u v) units
      (λ v j same.
        let h = In-All (λ v. suc i ≤ v.chunk_index) units v (later_place (suc i) units x) j in
        let k = same.1 in absurd (omega arith)),
  Consecutive-unique (suc i) units x,
)

later_file :
    (i : ℕ) (files : List FileEntry)
    → IndexedFrom i files
    → All (λ u. i ≤ u.file_index) (expand_files_to_units files)
unfolding expand_files_to_units
later_file i [] x = tt
later_file i (f ∷ files) (e, x) =
    All-append (λ u. i ≤ u.file_index) (expand_file f) (expand_files_to_units files)
      (All-In (λ u. i ≤ u.file_index) (expand_file f)
        (λ u j.
          let h = In-All (λ u. u.file_index ≡ f.index) (expand_file f) u (expand_file-file f) j in
          omega arith))
      (All-In (λ u. i ≤ u.file_index) (expand_files_to_units files)
        (λ u j.
          let h =
            In-All (λ u. suc i ≤ u.file_index) (expand_files_to_units files) u
              (later_file (suc i) files x) j in
          omega arith))

-- If the files carry their positions as indices, no two of their units have one file and one place.
pub expand_files_to_units_unique :
    (i : ℕ) (files : List FileEntry)
    → IndexedFrom i files
    → HasUniqueUnits (expand_files_to_units files)
unfolding expand_files_to_units
expand_files_to_units_unique i [] x = tt
expand_files_to_units_unique i (f ∷ files) (e, x) =
    HasUniqueUnits-append (expand_file f) (expand_files_to_units files)
      (Consecutive-unique 0 (expand_file f) (expand_file-Consecutive f))
      (expand_files_to_units_unique (suc i) files x)
      (λ u v j k same.
        let a = In-All (λ u. u.file_index ≡ f.index) (expand_file f) u (expand_file-file f) j in
        let b =
          In-All (λ u. suc i ≤ u.file_index) (expand_files_to_units files) v
            (later_file (suc i) files x) k in
        let c = same.0 in absurd (omega arith))

pub HasUniqueUnits-left : (us vs : List UploadUnit) → HasUniqueUnits (us ++ vs) → HasUniqueUnits us
HasUniqueUnits-left [] vs h = tt
HasUniqueUnits-left (u ∷ us) vs (new, h) = (
  All-In (λ v. ¬ SamePlace u v) us
      (λ v i. In-All (λ v. ¬ SamePlace u v) (us ++ vs) v new (In-append_left v us vs i)),
  HasUniqueUnits-left us vs h,
)
