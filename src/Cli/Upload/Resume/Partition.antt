-- ===== src/Cli/Upload/Resume/Partition.antt =====
-- cli/src/upload.ts: what is confirmed and what remains.
use evmfs.Prelude.{
  ◌≡◌, refl, sym, ◌∙◌, ap, ap₂, ◌↔◌, ◌⊎◌, inl, inr, Bool, true, ◌&&◌, not, List, [], ◌∷◌, keep,
  length, ◌==◌, ==_iff, Bool-cases, All, arith,
}
use evmfs.Prelude.Text.{Text, text_eq, text_eq_iff}
use evmfs.Prelude.Member.{In, In-keep, any_of_In, In-of_any, keep_all, All-In, In-All}
use evmfs.Cli.Batch.{UploadUnit}
use evmfs.Cli.Manifest.{ConfirmedChunk, UploadState}
use evmfs.Cli.Upload.Resume.{
  chunk_key, confirmed_keys, has, units_of_file, is_valid, discard_stale, remaining_units,
}
use evmfs.Cli.Upload.Resume.Keys.{chunk_key-injective}

-- The chunk stands at the unit's place.
pub record IsFor (u : UploadUnit) (c : ConfirmedChunk) : Type 0 where
  pub file_index : c.file_index ≡ u.file_index
  pub chunk_index : c.chunk_index ≡ u.chunk_index

abbrev key_of : UploadUnit → Text
key_of u = chunk_key u.file_index u.chunk_index

has_of_In :
    (u : UploadUnit) (c : ConfirmedChunk) (chunks : List ConfirmedChunk)
    → In c chunks
    → IsFor u c
    → has (confirmed_keys chunks) (key_of u) ≡ true
unfolding has confirmed_keys
has_of_In u c [] i f = absurd i
has_of_In u c (d ∷ chunks) (inl same) f =
    let key : chunk_key d.file_index d.chunk_index ≡ key_of u =
      ap (λ x. chunk_key x.file_index x.chunk_index) same
      ∙ ap₂ chunk_key f.file_index f.chunk_index in
    rw ((text_eq_iff _ _).1 key)
has_of_In u c (d ∷ chunks) (inr i) f =
    elim (Bool-cases (text_eq (chunk_key d.file_index d.chunk_index) (key_of u))) [
      | inl e ↦ rw e
      | inr e ↦ rw e (has_of_In u c chunks i f)
    ]

In-of_has :
    (u : UploadUnit) (chunks : List ConfirmedChunk)
    → has (confirmed_keys chunks) (key_of u) ≡ true
    → (c : ConfirmedChunk) × In c chunks × IsFor u c
unfolding has confirmed_keys
In-of_has u [] h = cc
In-of_has u (d ∷ chunks) h =
    elim (Bool-cases (text_eq (chunk_key d.file_index d.chunk_index) (key_of u))) [
      | inl e ↦
          let (file, place) = chunk_key-injective _ _ _ _ ((text_eq_iff _ _).0 e) in
          (d, inl refl, record { file_index = file; chunk_index = place })
      | inr e ↦ let (c, i, f) = In-of_has u chunks (rw e at h) in (c, inr i, f)
    ]

abbrev unconfirmed : UploadState → UploadUnit → Bool
unconfirmed state v = not (has (confirmed_keys state.chunks) (key_of v))

-- A unit remains exactly when it is one of the units and no confirmed chunk stands at its place.
pub remaining_units_iff :
    (units : List UploadUnit) (state : UploadState) (u : UploadUnit)
    → In u (remaining_units units state)
      ↔ (In u units × ((c : ConfirmedChunk) → In c state.chunks → ¬ IsFor u c))
unfolding remaining_units
remaining_units_iff units state u = (to, from)
  where
    to :
        In u (remaining_units units state)
        → In u units × ((c : ConfirmedChunk) → In c state.chunks → ¬ IsFor u c)
    to h =
        let (i, e) = (In-keep (unconfirmed state) u units).0 h in
        (i, λ c j f. let t = has_of_In u c state.chunks j f in ground arith)

    from :
        In u units × ((c : ConfirmedChunk) → In c state.chunks → ¬ IsFor u c)
        → In u (remaining_units units state)
    from (i, none_for) = (In-keep (unconfirmed state) u units).1 (
      i,
      elim (Bool-cases (has (confirmed_keys state.chunks) (key_of u))) [
        | inl e ↦ let (c, j, f) = In-of_has u state.chunks e in absurd (none_for c j f)
        | inr e ↦ rw e
      ],
    )

-- The unit has the chunk's place and its file has as many chunks.
pub record IsCurrent (c : ConfirmedChunk) (u : UploadUnit) : Type 0 where
  pub file_index : u.file_index ≡ c.file_index
  pub chunk_index : u.chunk_index ≡ c.chunk_index
  pub total_chunks : u.total_chunks ≡ c.total_chunks

is_valid_iff :
    (units : List UploadUnit) (c : ConfirmedChunk)
    → (is_valid units c ≡ true) ↔ ((u : UploadUnit) × In u units × IsCurrent c u)
unfolding is_valid
is_valid_iff units c = (to, from)
  where
    in_file : UploadUnit → Bool
    in_file u = u.file_index == c.file_index

    same_chunk : UploadUnit → Bool
    same_chunk u = (u.chunk_index == c.chunk_index) && (u.total_chunks == c.total_chunks)

    to : is_valid units c ≡ true → (u : UploadUnit) × In u units × IsCurrent c u
    to h =
        let (u, i, e) = In-of_any same_chunk (units_of_file c.file_index units) h in
        let (j, f) = (In-keep in_file u units).0 i in (u, j, ground arith)

    from : (u : UploadUnit) × In u units × IsCurrent c u → is_valid units c ≡ true
    from (u, i, s) =
        any_of_In same_chunk u (units_of_file c.file_index units)
          ((In-keep in_file u units).1 (i, ground arith)) (ground arith)

chunks-discard_stale :
    (units : List UploadUnit) (state : UploadState)
    → (discard_stale units state).chunks ≡ keep (is_valid units) state.chunks
unfolding discard_stale
chunks-discard_stale units state =
    elim (Bool-cases (length (keep (is_valid units) state.chunks) == length state.chunks)) [
      | inl e ↦ rw e (sym (keep_all (is_valid units) state.chunks ((==_iff _ _).0 e)))
      | inr e ↦ rw e
    ]

-- A chunk stays exactly when it was confirmed and the current chunking has it.
pub discard_stale_iff :
    (units : List UploadUnit) (state : UploadState) (c : ConfirmedChunk)
    → In c (discard_stale units state).chunks
      ↔ (In c state.chunks × ((u : UploadUnit) × In u units × IsCurrent c u))
discard_stale_iff units state c = rw (chunks-discard_stale units state) (
    let (to, from) = In-keep (is_valid units) c state.chunks in
    let (current, valid) = is_valid_iff units c in
    (λ h. let (i, e) = to h in (i, current e), λ h. from (h.0, valid h.1)))

-- A unit remains, or a confirmed chunk stands at its place.
pub remaining_or_confirmed :
    (units : List UploadUnit) (state : UploadState) (u : UploadUnit)
    → In u units
    → In u (remaining_units units state) ⊎ ((c : ConfirmedChunk) × In c state.chunks × IsFor u c)
unfolding remaining_units
remaining_or_confirmed units state u i =
    elim (Bool-cases (has (confirmed_keys state.chunks) (key_of u))) [
      | inl e ↦ inr (In-of_has u state.chunks e)
      | inr e ↦ inl ((In-keep (unconfirmed state) u units).1 (i, rw e))
    ]

-- No two chunks stand at one place.
abbrev pub HasUniquePlaces : List ConfirmedChunk → Type 0
HasUniquePlaces [] = Unit
HasUniquePlaces (c ∷ chunks) =
    All (λ d. ¬ ((d.file_index ≡ c.file_index) × (d.chunk_index ≡ c.chunk_index))) chunks
    × HasUniquePlaces chunks

keep_unique :
    (p : ConfirmedChunk → Bool) (chunks : List ConfirmedChunk)
    → HasUniquePlaces chunks
    → HasUniquePlaces (keep p chunks)
keep_unique p [] u = tt
keep_unique p (c ∷ chunks) (new, u) = elim (Bool-cases (p c)) [
  | inr e ↦ rw e (keep_unique p chunks u)
  | inl e ↦ rw e (
    All-In (λ d. ¬ ((d.file_index ≡ c.file_index) × (d.chunk_index ≡ c.chunk_index)))
        (keep p chunks) (λ d j. In-All _ chunks d new ((In-keep p d chunks).0 j).0),
    keep_unique p chunks u,
  )
]

pub discard_stale_unique :
    (units : List UploadUnit) (state : UploadState)
    → HasUniquePlaces state.chunks
    → HasUniquePlaces (discard_stale units state).chunks
discard_stale_unique units state u =
    rw (chunks-discard_stale units state) (keep_unique (is_valid units) state.chunks u)

pub manifest_hash-discard_stale :
    (units : List UploadUnit) (state : UploadState)
    → (discard_stale units state).manifest_hash ≡ state.manifest_hash
unfolding discard_stale
manifest_hash-discard_stale units state =
    elim (Bool-cases (length (keep (is_valid units) state.chunks) == length state.chunks)) [
      | inl e ↦ rw e
      | inr e ↦ rw e
    ]
