-- ===== src/Cli/Upload/Send/Distinct.antt =====
-- cli/src/upload.ts: units with distinct hashes, in what remains and in the batches.
use evmfs.Prelude.{ℕ, ◌≢◌, inl, inr, Bool, List, [], ◌∷◌, ◌++◌, keep, All, Bool-cases}
use evmfs.Prelude.Text.{Text}
use evmfs.Prelude.Member.{In-All, All-In, In-keep}
use evmfs.Cli.Batch.{UploadUnit, Batch}
use evmfs.Cli.Batch.Order.{units_of}
use evmfs.Cli.Batch.Places.{HasUniqueUnits, HasUniqueUnits-keep}
use evmfs.Cli.Manifest.{UploadState}
use evmfs.Cli.Upload.Resume.{remaining_units}
use evmfs.Cli.Upload.Send.Receipts.{Distinct}

module _ (keccak256 : List ℕ → Text) where
  Distinct-append :
      (us vs : List UploadUnit)
      → Distinct keccak256 (us ++ vs)
      → Distinct keccak256 us × Distinct keccak256 vs
  Distinct-append [] vs d = (tt, d)
  Distinct-append (u ∷ us) vs (new, d) =
      let (left, right) = Distinct-append us vs d in ((All_left us new, left), right)
    where
      All_left :
          (xs : List UploadUnit)
          → All (λ v. keccak256 u.bytes ≢ keccak256 v.bytes) (xs ++ vs)
          → All (λ v. keccak256 u.bytes ≢ keccak256 v.bytes) xs
      All_left [] h = tt
      All_left (x ∷ xs) (p, h) = (p, All_left xs h)

  pub Distinct-batches :
      (batches : List Batch)
      → Distinct keccak256 (units_of batches)
      → All (λ b. Distinct keccak256 b.units) batches
  Distinct-batches [] d = tt
  Distinct-batches (b ∷ batches) d =
      let (first, rest) = Distinct-append b.units (units_of batches) d in
      (first, Distinct-batches batches rest)

  Distinct-keep :
      (p : UploadUnit → Bool) (units : List UploadUnit)
      → Distinct keccak256 units
      → Distinct keccak256 (keep p units)
  Distinct-keep p [] d = tt
  Distinct-keep p (u ∷ units) (new, d) = elim (Bool-cases (p u)) [
    | inr e ↦ rw e (Distinct-keep p units d)
    | inl e ↦ rw e (
      All-In (λ v. keccak256 u.bytes ≢ keccak256 v.bytes) (keep p units)
          (λ v j.
            In-All (λ v. keccak256 u.bytes ≢ keccak256 v.bytes) units v new
              ((In-keep p v units).0 j).0),
      Distinct-keep p units d,
    )
  ]

  pub Distinct-remaining :
      (units : List UploadUnit) (state : UploadState)
      → Distinct keccak256 units
      → Distinct keccak256 (remaining_units units state)
  unfolding remaining_units
  Distinct-remaining units state d = Distinct-keep _ units d

pub unique-remaining :
    (units : List UploadUnit) (state : UploadState)
    → HasUniqueUnits units
    → HasUniqueUnits (remaining_units units state)
unfolding remaining_units
unique-remaining units state u = HasUniqueUnits-keep _ units u
