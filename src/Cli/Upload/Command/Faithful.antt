-- ===== src/Cli/Upload/Command/Faithful.antt =====
-- cli/src/upload.ts: what a run adds to its progress.
use evmfs.Prelude.{ℕ, ◌≡◌, refl, sym, ◌∙◌, subst, inl, inr, List, [], ◌∷◌, ◌++◌, All-append}
use evmfs.Prelude.Text.{Text}
use evmfs.Prelude.Member.{In, All-In, In-All, In-append, In-append_left, In-append_right}
use evmfs.Cli.Batch.{UploadUnit}
use evmfs.Cli.Batch.Places.{SamePlace, HasUniqueUnits}
use evmfs.Cli.Manifest.{ConfirmedChunk, UploadState}
use evmfs.Cli.Upload.Resume.{discard_stale, remaining_units}
use evmfs.Cli.Upload.Resume.Partition.{
  IsFor, remaining_units_iff, remaining_or_confirmed, discard_stale_iff, HasUniquePlaces,
  discard_stale_unique,
}
use evmfs.Cli.Upload.Send.Receipts.{IsRecorded, Recorded}
use evmfs.Cli.Upload.Assemble.Complete.{IsFaithful, IsComplete}

HasUniquePlaces-append :
    (cs ds : List ConfirmedChunk)
    → HasUniquePlaces cs
    → HasUniquePlaces ds
    → ((c d : ConfirmedChunk)
        → In c cs
        → In d ds
        → ¬ ((d.file_index ≡ c.file_index) × (d.chunk_index ≡ c.chunk_index)))
    → HasUniquePlaces (cs ++ ds)
HasUniquePlaces-append [] ds h k apart = k
HasUniquePlaces-append (c ∷ cs) ds (new, h) k apart = (
  All-append (λ d. ¬ ((d.file_index ≡ c.file_index) × (d.chunk_index ≡ c.chunk_index))) cs ds new
      (All-In (λ d. ¬ ((d.file_index ≡ c.file_index) × (d.chunk_index ≡ c.chunk_index))) ds
        (λ d i. apart c d (inl refl) i)),
  HasUniquePlaces-append cs ds h k (λ b d i. apart b d (inr i)),
)

module _ (keccak256 : List ℕ → Text) where
  unit_of :
      (us : List UploadUnit) (cs : List ConfirmedChunk) (c : ConfirmedChunk)
      → Recorded keccak256 us cs
      → In c cs
      → (u : UploadUnit) × In u us × IsRecorded keccak256 u c
  unit_of [] [] c h i = absurd i
  unit_of [] (d ∷ cs) c h i = absurd h
  unit_of (u ∷ us) [] c h i = absurd i
  unit_of (u ∷ us) (d ∷ cs) c (r, h) (inl same) =
      (u, inl refl, subst (IsRecorded keccak256 u) same r)
  unit_of (u ∷ us) (d ∷ cs) c (r, h) (inr i) = let (v, j, k) = unit_of us cs c h i in (v, inr j, k)

  chunk_of :
      (us : List UploadUnit) (cs : List ConfirmedChunk) (u : UploadUnit)
      → Recorded keccak256 us cs
      → In u us
      → (c : ConfirmedChunk) × In c cs × IsFor u c
  chunk_of [] cs u h i = absurd i
  chunk_of (v ∷ us) [] u h i = absurd h
  chunk_of (v ∷ us) (c ∷ cs) u (r, h) (inl same) = (
    c,
    inl refl,
    subst (λ z. IsFor z c) same (record { file_index = r.file_index; chunk_index = r.chunk_index }),
  )
  chunk_of (v ∷ us) (c ∷ cs) u (r, h) (inr i) =
      let (d, j, k) = chunk_of us cs u h i in (d, inr j, k)

  Recorded-unique :
      (us : List UploadUnit) (cs : List ConfirmedChunk)
      → Recorded keccak256 us cs
      → HasUniqueUnits us
      → HasUniquePlaces cs
  Recorded-unique [] [] h u = tt
  Recorded-unique [] (c ∷ cs) h u = absurd h
  Recorded-unique (u ∷ us) [] h k = absurd h
  Recorded-unique (u ∷ us) (c ∷ cs) (r, h) (new, k) = (
    All-In (λ d. ¬ ((d.file_index ≡ c.file_index) × (d.chunk_index ≡ c.chunk_index))) cs
        (λ d i same.
          let (v, j, rec) = unit_of us cs d h i in
          In-All (λ v. ¬ SamePlace u v) us v new j
            (
              sym rec.file_index ∙ same.0 ∙ r.file_index,
              sym rec.chunk_index ∙ same.1 ∙ r.chunk_index,
            )),
    Recorded-unique us cs h k,
  )

  module _ (units : List UploadUnit) (state : UploadState)
      (faithful : IsFaithful keccak256 units state.chunks) where
    -- Part of what remains may be recorded.
    pub IsFaithful-added :
        (part : List UploadUnit) (added : List ConfirmedChunk)
        → ((u : UploadUnit) → In u part → In u (remaining_units units state))
        → HasUniqueUnits part
        → Recorded keccak256 part added
        → IsFaithful keccak256 units (state.chunks ++ added)
    IsFaithful-added part added within distinct rec = record {
      recorded = λ c i. elim (In-append c state.chunks added i) [
        | inl old ↦ faithful.recorded c old
        | inr new ↦
            let (u, j, r) = unit_of part added c rec new in
            (u, ((remaining_units_iff units state u).0 (within u j)).0, r)
      ];
      unique =
          HasUniquePlaces-append state.chunks added faithful.unique
            (Recorded-unique part added rec distinct)
            (λ c d i j same.
              let (u, k, r) = unit_of part added d rec j in
              ((remaining_units_iff units state u).0 (within u k)).1 c i (record {
                file_index = sym same.0 ∙ r.file_index;
                chunk_index = sym same.1 ∙ r.chunk_index;
              }));
    }

    -- When all that remains is recorded, every unit is.
    pub IsComplete-added :
        (added : List ConfirmedChunk)
        → Recorded keccak256 (remaining_units units state) added
        → IsComplete keccak256 units (state.chunks ++ added)
    IsComplete-added added rec u i = elim (remaining_or_confirmed units state u i) [
      | inl j ↦
          let (c, k, f) = chunk_of (remaining_units units state) added u rec j in
          (c, In-append_right c state.chunks added k, f)
      | inr found ↦ (found.0, In-append_left found.0 state.chunks added found.1, found.2)
    ]

  -- Discarding stale entries keeps faithful progress faithful.
  pub discard_stale-IsFaithful :
      (units : List UploadUnit) (state : UploadState)
      → IsFaithful keccak256 units state.chunks
      → IsFaithful keccak256 units (discard_stale units state).chunks
  discard_stale-IsFaithful units state h = record {
    recorded = λ c i. h.recorded c ((discard_stale_iff units state c).0 i).0;
    unique = discard_stale_unique units state h.unique;
  }
