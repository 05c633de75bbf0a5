-- ===== src/Web/Upload/Faithful.antt =====
-- web/src/lib/evmfs.ts, `uploadFiles`: the confirmed units of an upload that starts with none.
use evmfs.Prelude.{
  ◌≡◌, refl, sym, ◌∙◌, ap, subst, ◌⊎◌, inl, inr, true, some, List, [], ◌∷◌, map, All, ok,
  Bool-cases, Option-cases,
}
use evmfs.Prelude.Text.{Text, text_eq, text_eq_sound}
use evmfs.Prelude.Member.{
  In, In-map_of, In-map, All-In, In-All, In-append, In-append_left, In-append_right,
}
use evmfs.Cli.Upload.Resume.Keys.{chunk_key-injective}
use evmfs.Cli.Upload.Resume.Partition.{IsFor}
use evmfs.Cli.Upload.Send.Receipts.{IsRecorded}
use evmfs.Cli.Upload.Assemble.Ascending.{Records}
use evmfs.Cli.Upload.Assemble.Complete.{IsFaithful, IsComplete}
use evmfs.Web.Units.{FileEntry, UploadUnit, Batch, read_unit}
use evmfs.Web.Units.Chunking.{read_of}
use evmfs.Web.Units.Packed.{all_units}
use evmfs.Web.Progress.{ConfirmedUnit}
use evmfs.Web.ConfirmedMap.{
  ConfirmedMap, key_of_confirmed, compute_confirmed_key, set_unit, has_unit, unit_values,
  confirmed_unit, confirmed_from,
}
use evmfs.Web.ConfirmedMap.Has.{AllIn}
use evmfs.Web.ConfirmedMap.OnePlace.{IsKeyed, unit_values-HasUniquePlaces}
use evmfs.Web.Upload.{PageEnv, Page, own_topic, unit_of_hash, confirm_log, upload_loop}
use evmfs.Web.Upload.Kept.{page_of, Keeps, upload_loop-Keeps}
use evmfs.Web.Upload.Keyed.{upload_loop-IsKeyed}
use evmfs.Web.Upload.Confirmed.{IsHonestPage, HasDistinctHashes, upload_loop-AllIn}

In-set_unit :
    (key : Text) (c : ConfirmedUnit) (m : ConfirmedMap) (d : ConfirmedUnit)
    → In d (unit_values (set_unit key c m))
    → (c ≡ d) ⊎ In d (unit_values m)
unfolding set_unit
In-set_unit key c [] d i = i
In-set_unit key c ((k, e) ∷ m) d i = elim (Bool-cases (text_eq k key)) [
  | inl h ↦ elim (rw h at i) [ inl same ↦ inl same | inr j ↦ inr (inr j) ]
  | inr h ↦ elim (rw h at i) [
    | inl same ↦ inr (inl same)
    | inr j ↦ elim (In-set_unit key c m d j) [ inl same ↦ inl same | inr l ↦ inr (inr l) ]
  ]
]

-- A key of the map is that of one of its units.
In-of_has_unit :
    (key : Text) (m : ConfirmedMap)
    → IsKeyed m
    → has_unit key m ≡ true
    → (c : ConfirmedUnit) × In c (unit_values m) × (key_of_confirmed c ≡ key)
unfolding has_unit
In-of_has_unit key [] keyed h = cc
In-of_has_unit key ((k, c) ∷ m) (own, new, keyed) h = elim (Bool-cases (text_eq k key)) [
  | inl e ↦ (c, inl refl, sym own ∙ text_eq_sound k key e)
  | inr e ↦ let (d, i, same) = In-of_has_unit key m keyed (rw e at h) in (d, inr i, same)
]

module _ (env : PageEnv) where
  unit_of_hash-hash :
      (units : List UploadUnit) (hash : Text) (u : UploadUnit)
      → unit_of_hash env units hash ≡ some u
      → In u units × (env.keccak256 (read_unit u) ≡ hash)
  unfolding unit_of_hash
  unit_of_hash-hash [] hash u h = cc
  unit_of_hash-hash (v ∷ units) hash u h = elim (Option-cases (unit_of_hash env units hash)) [
    | inr (w, e) ↦
        let (i, same) = unit_of_hash-hash units hash u (e ∙ rw (e, unit_of_hash) at h) in
        (inr i, same)
    | inl e ↦
        let h' = rw (e, unit_of_hash) at h in
        elim (Bool-cases (text_eq (env.keccak256 (read_unit v)) hash)) [
          | inr f ↦ let h2 = rw f at h' in cc
          | inl f ↦
              let h2 = rw f at h' in
              let same : v ≡ u = cc in
              (inl same, ap (λ w. env.keccak256 (read_unit w)) (sym same) ∙ text_eq_sound _ hash f)
        ]
  ]

  -- Every confirmed unit records the place and the data of one of the units.
  abbrev pub IsOf : List UploadUnit → ConfirmedMap → Type 0
  IsOf units m = Records env.keccak256 (map read_of units) (unit_values m)

  confirm_log-IsOf :
      (all part : List UploadUnit)
      → ((u : UploadUnit) → In u part → In u all)
      → Keeps env (IsOf all) part
  unfolding confirm_log
  confirm_log-IsOf all part within block log m h c i = elim (Option-cases (own_topic env log)) [
    | inl e ↦ h c (rw (e, confirm_log) at i)
    | inr (hash, e) ↦ elim (Option-cases (unit_of_hash env part hash)) [
      | inl n ↦ h c (rw (e, n, confirm_log) at i)
      | inr (u, s) ↦
          let (j, same) = unit_of_hash-hash part hash u s in
          let new = confirmed_unit hash block u in
          elim (In-set_unit (compute_confirmed_key u) new m c (rw (e, s, confirm_log) at i)) [
            | inr l ↦ h c l
            | inl is_new ↦ (
              read_of u,
              In-map_of read_of u all (within u j),
              subst (IsRecorded env.keccak256 (read_of u)) is_new (record {
                file_index = refl;
                chunk_index = refl;
                total_chunks = refl;
                hash = sym same;
              }),
            )
          ]
    ]
  ]

  pub confirmed_from-IsOf :
      (all : List UploadUnit) (m : ConfirmedMap) (saved : List ConfirmedUnit)
      → IsOf all m
      → Records env.keccak256 (map read_of all) saved
      → IsOf all (confirmed_from m saved)
  unfolding confirmed_from
  confirmed_from-IsOf all m [] h k = h
  confirmed_from-IsOf all m (c ∷ saved) h k =
      confirmed_from-IsOf all (set_unit (key_of_confirmed c) c m) saved
        (λ d i. elim (In-set_unit (key_of_confirmed c) c m d i) [
          | inl same ↦ k d (inl same)
          | inr j ↦ h d j
        ])
        (λ d i. k d (inr i))

  In-all_units :
      (batches : List Batch) (b : Batch) (u : UploadUnit)
      → In b batches
      → In u b.units
      → In u (all_units batches)
  In-all_units [] b u i j = absurd i
  In-all_units (x ∷ batches) b u (inl same) j =
      In-append_left u x.units (all_units batches)
        (subst (λ (t : Batch). In u t.units) (sym same) j)
  In-all_units (x ∷ batches) b u (inr i) j =
      In-append_right u x.units (all_units batches) (In-all_units batches b u i j)

  In-of_all_units :
      (batches : List Batch) (u : UploadUnit)
      → In u (all_units batches)
      → (b : Batch) × In b batches × In u b.units
  In-of_all_units [] u i = absurd i
  In-of_all_units (x ∷ batches) u i = elim (In-append u x.units (all_units batches) i) [
    | inl j ↦ (x, inl refl, j)
    | inr j ↦ let (b, k, l) = In-of_all_units batches u j in (b, inr k, l)
  ]

  module _ (files : List FileEntry) (batches : List Batch) (page done : Page)
      (keyed : IsKeyed page.confirmed)
      (before : Records env.keccak256
        (map read_of (all_units batches))
        (unit_values page.confirmed))
      (completes : upload_loop env files batches page ≡ ok done) where
    done-IsKeyed : IsKeyed done.confirmed
    done-IsKeyed =
        subst (λ r. IsKeyed (page_of r).confirmed) completes
          (upload_loop-IsKeyed env files batches page keyed)

    -- Whatever the receipts hold, the loop confirms only units of the batches, each at one place.
    pub upload_loop-IsFaithful :
        IsFaithful env.keccak256 (map read_of (all_units batches)) (unit_values done.confirmed)
    upload_loop-IsFaithful = record {
      recorded =
          subst (λ r. IsOf (all_units batches) (page_of r).confirmed) completes
            (upload_loop-Keeps env (IsOf (all_units batches)) files batches page
              (All-In _ batches (λ b i.
                confirm_log-IsOf (all_units batches) b.units (λ u j. In-all_units batches b u i j)))
              before);
      unique = unit_values-HasUniquePlaces done.confirmed done-IsKeyed;
    }

    -- With receipts that log what is stored, and no two units of a batch with one hash, it confirms
    -- every unit of the batches.
    pub upload_loop-IsComplete :
        IsHonestPage env
        → All (λ b. HasDistinctHashes env b.units) batches
        → IsComplete env.keccak256 (map read_of (all_units batches)) (unit_values done.confirmed)
    upload_loop-IsComplete honest distinct u i =
        let (w, j, same) = In-map read_of u (all_units batches) i in
        let (b, k, l) = In-of_all_units batches w j in
        let all_in =
          In-All (λ (x : Batch). AllIn done.confirmed x.units) batches b
            (upload_loop-AllIn env honest files batches page done distinct completes) k in
        let has =
          In-All (λ x. has_unit (compute_confirmed_key x) done.confirmed ≡ true) b.units w all_in
            l in
        let (c, m, key) =
          In-of_has_unit (compute_confirmed_key w) done.confirmed done-IsKeyed has in
        let (file, place) =
          chunk_key-injective c.file_index c.chunk_index w.file_index w.chunk_index key in
        (c, m, subst (λ x. IsFor x c) same (record { file_index = file; chunk_index = place }))
