-- ===== src/Cli/Upload/Assemble/Ascending.antt =====
-- cli/src/upload.ts: consecutive units and the sorted chunks that record them.
use evmfs.Prelude.{ℕ, suc, ◌≤◌, ◌<◌, ◌≡◌, refl, sym, ap, subst, inl, inr, List, [], ◌∷◌, All, arith}
use evmfs.Prelude.Text.{Text}
use evmfs.Prelude.Member.{In, In-All}
use evmfs.Prelude.SortKeys.{IsAscending}
use evmfs.Cli.Batch.{UploadUnit}
use evmfs.Cli.Batch.Files.{ConsecutiveFrom}
use evmfs.Cli.Manifest.{ConfirmedChunk}
use evmfs.Cli.Upload.Send.Receipts.{IsRecorded, Recorded}

chunk_index-le :
    (i : ℕ) (units : List UploadUnit) (u : UploadUnit)
    → ConsecutiveFrom i units
    → In u units
    → i ≤ u.chunk_index
chunk_index-le i [] u x h = absurd h
chunk_index-le i (v ∷ units) u (e, x) (inl same) =
    let k = ap (λ (z : UploadUnit). z.chunk_index) same in omega arith
chunk_index-le i (v ∷ units) u (e, x) (inr h) = omega (arith, chunk_index-le (suc i) units u x h)

abbrev pub chunk_place : ConfirmedChunk → ℕ
chunk_place c = c.chunk_index

module _ (keccak256 : List ℕ → Text) where
  -- Every chunk records one of the units.
  abbrev pub Records : List UploadUnit → List ConfirmedChunk → Type 0
  Records units chunks =
      (c : ConfirmedChunk) → In c chunks → (u : UploadUnit) × In u units × IsRecorded keccak256 u c

  -- Every unit's place has a chunk.
  abbrev pub Covers : List UploadUnit → List ConfirmedChunk → Type 0
  Covers units chunks =
      (u : UploadUnit)
      → In u units
      → (c : ConfirmedChunk) × In c chunks × (c.chunk_index ≡ u.chunk_index)

  first-le :
      (u : UploadUnit) (units : List UploadUnit) (c : ConfirmedChunk) (chunks : List ConfirmedChunk)
      → All (λ d. c.chunk_index < d.chunk_index) chunks
      → Covers (u ∷ units) (c ∷ chunks)
      → c.chunk_index ≤ u.chunk_index
  first-le u units c chunks low k = at_chunk (k u (inl refl))
    where
      at_chunk :
          (d : ConfirmedChunk) × In d (c ∷ chunks) × (d.chunk_index ≡ u.chunk_index)
          → c.chunk_index ≤ u.chunk_index
      at_chunk (d, inl same, e) = let k = ap chunk_place same in omega arith
      at_chunk (d, inr j, e) =
          let h = In-All (λ d. c.chunk_index < d.chunk_index) chunks d low j in omega arith

  first-IsRecorded :
      (u : UploadUnit) (units : List UploadUnit) (c : ConfirmedChunk) (chunks : List ConfirmedChunk)
      → ConsecutiveFrom u.chunk_index (u ∷ units)
      → All (λ d. c.chunk_index < d.chunk_index) chunks
      → Records (u ∷ units) (c ∷ chunks)
      → Covers (u ∷ units) (c ∷ chunks)
      → IsRecorded keccak256 u c
  first-IsRecorded u units c chunks (_, x) low r k = at_unit (r c (inl refl))
    where
      at_unit :
          (v : UploadUnit) × In v (u ∷ units) × IsRecorded keccak256 v c → IsRecorded keccak256 u c
      at_unit (v, inl same, rec) = subst (λ v. IsRecorded keccak256 v c) (sym same) rec
      at_unit (v, inr j, rec) = absurd (
          omega (
            arith,
            first-le u units c chunks low k,
            chunk_index-le (suc u.chunk_index) units v x j,
            rec.chunk_index,
          ))

  rest-Records :
      (u : UploadUnit) (units : List UploadUnit) (c : ConfirmedChunk) (chunks : List ConfirmedChunk)
      → c.chunk_index ≡ u.chunk_index
      → All (λ d. c.chunk_index < d.chunk_index) chunks
      → Records (u ∷ units) (c ∷ chunks)
      → Records units chunks
  rest-Records u units c chunks e low r d j = at_unit (r d (inr j))
    where
      at_unit :
          (v : UploadUnit) × In v (u ∷ units) × IsRecorded keccak256 v d
          → (v : UploadUnit) × In v units × IsRecorded keccak256 v d
      at_unit (v, inr i, rec) = (v, i, rec)
      at_unit (v, inl same, rec) = absurd (
          omega (
            arith,
            In-All (λ d. c.chunk_index < d.chunk_index) chunks d low j,
            rec.chunk_index,
            ap (λ (z : UploadUnit). z.chunk_index) same,
          ))

  rest-Covers :
      (u : UploadUnit) (units : List UploadUnit) (c : ConfirmedChunk) (chunks : List ConfirmedChunk)
      → c.chunk_index ≡ u.chunk_index
      → ConsecutiveFrom (suc u.chunk_index) units
      → Covers (u ∷ units) (c ∷ chunks)
      → Covers units chunks
  rest-Covers u units c chunks e x k v j = at_chunk (k v (inr j))
    where
      at_chunk :
          (d : ConfirmedChunk) × In d (c ∷ chunks) × (d.chunk_index ≡ v.chunk_index)
          → (d : ConfirmedChunk) × In d chunks × (d.chunk_index ≡ v.chunk_index)
      at_chunk (d, inr i, h) = (d, i, h)
      at_chunk (d, inl same, h) =
          absurd
            (omega (arith, chunk_index-le (suc u.chunk_index) units v x j, ap chunk_place same))

  pub Recorded-of_IsAscending :
      (i : ℕ) (units : List UploadUnit) (chunks : List ConfirmedChunk)
      → ConsecutiveFrom i units
      → IsAscending chunk_place chunks
      → Records units chunks
      → Covers units chunks
      → Recorded keccak256 units chunks
  Recorded-of_IsAscending i [] [] x a r k = tt
  Recorded-of_IsAscending i [] (c ∷ chunks) x a r k = (r c (inl refl)).1
  Recorded-of_IsAscending i (u ∷ units) [] x a r k = (k u (inl refl)).1
  Recorded-of_IsAscending i (u ∷ units) (c ∷ chunks) (e, x) (low, a) r k =
      let x' : ConsecutiveFrom (suc u.chunk_index) units = rw e x in
      let first = first-IsRecorded u units c chunks (refl, x') low r k in
      (
        first,
        Recorded-of_IsAscending (suc i) units chunks x a
            (rest-Records u units c chunks first.chunk_index low r)
            (rest-Covers u units c chunks first.chunk_index x' k),
      )
