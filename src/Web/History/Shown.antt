-- ===== src/Web/History/Shown.antt =====
-- web/src/hooks/useUploadHistory.ts: what the page shows after its calls.
use mathlib.Core.Path.{fun_ext}
use evmfs.Prelude.{
  ◌≡◌, ◌↔◌, refl, ap, ◌∙◌, inl, inr, Bool, true, false, Option, none, some, List, [], ◌∷◌,
  if◌then◌else◌, Bool-cases, Option-cases, arith,
}
use evmfs.Prelude.Text.{Text, text_eq, text_eq_sound}
use evmfs.Prelude.Member.{In}
use evmfs.Prelude.Sort.{IsSorted}
use evmfs.Prelude.SortOrder.{In-sort, sort-IsSorted}
use evmfs.Web.History.{
  SavedUpload, ObjectStore, newer_first, History, get_all_uploads, update_upload_label, refresh,
  after, save, rename, remove,
}

-- The documented behaviour of an object store with the key `id`.
pub record IsKeyedById (store : ObjectStore) : Type 0 where
  pub get_put :
      (i : Text) (u : SavedUpload) (db : store.Db)
      → store.get i (store.put u db) ≡ (if text_eq i u.id then some u else store.get i db)
  pub get_delete :
      (i id : Text) (db : store.Db)
      → store.get i (store.delete id db) ≡ (if text_eq i id then none else store.get i db)
  pub keyed : (i : Text) (u : SavedUpload) (db : store.Db) → store.get i db ≡ some u → u.id ≡ i
  pub listed :
      (u : SavedUpload) (db : store.Db) → In u (store.get_all db) ↔ (store.get u.id db ≡ some u)

-- A call of the page.
pub data Request : Type 0 where
  saves : SavedUpload → Request
  renames : Text → Text → Request
  removes : Text → Request

abbrev pub Remembered : Type 0
Remembered = Text → Option SavedUpload

abbrev pub relabel : Text → Option SavedUpload → Option SavedUpload
relabel label none = none
relabel label (some u) = some (record u { label = label })

-- What a call means for the uploads that are remembered, by their ids.
abbrev pub meaning : Request → Remembered → Remembered
meaning (saves u) m i = if text_eq i u.id then some u else m i
meaning (renames id label) m i = if text_eq i id then relabel label (m i) else m i
meaning (removes id) m i = if text_eq i id then none else m i

module _ (store : ObjectStore) where
  abbrev pub request : Bool → Bool → Request → History store → History store
  request commits reads (saves u) h = save store commits reads u h
  request commits reads (renames id label) h = rename store commits reads id label h
  request commits reads (removes id) h = remove store commits reads id h

  abbrev pub remembered : History store → Remembered
  remembered h i = store.get i h.db

  -- The page shows what is remembered, the newest first.
  pub record IsShown (h : History store) : Type 0 where
    pub shows : (u : SavedUpload) → In u h.uploads ↔ (remembered h u.id ≡ some u)
    pub newest_first : IsSorted newer_first h.uploads

  module _ (laws : IsKeyedById store) where
    update_upload_label-meaning :
        (id label i : Text) (db : store.Db)
        → store.get i (update_upload_label store id label db)
          ≡ (if text_eq i id then relabel label (store.get i db) else store.get i db)
    unfolding update_upload_label
    update_upload_label-meaning id label i db = elim (Bool-cases (text_eq i id)) [
      | inl e ↦
          let same = text_eq_sound i id e in
          elim (Option-cases (store.get id db)) [
            | inl n ↦ rw (e, n, same, n, update_upload_label) refl
            | inr (u, s) ↦
                let put = laws.get_put i (record u { label = label }) db in
                let hit = ap (text_eq i) (laws.keyed id u db s) ∙ e in
                let found : store.get i db ≡ some u = ap (λ x. store.get x db) same ∙ s in
                rw (s, e, found, update_upload_label) (rw hit at put)
          ]
      | inr e ↦ elim (Option-cases (store.get id db)) [
        | inl n ↦ rw (e, n, update_upload_label) refl
        | inr (u, s) ↦
            let put = laws.get_put i (record u { label = label }) db in
            let miss = ap (text_eq i) (laws.keyed id u db s) ∙ e in
            rw (s, e, update_upload_label) (rw miss at put)
      ]
    ]

    newer_total : (a b : SavedUpload) → newer_first a b ≡ false → newer_first b a ≡ true
    newer_total a b h = ground arith

    newer_trans :
        (a b c : SavedUpload)
        → newer_first a b ≡ true
        → newer_first b c ≡ true
        → newer_first a c ≡ true
    newer_trans a b c h k = ground arith

    refresh-IsShown : (h : History store) → IsShown (refresh store true h)
    unfolding refresh get_all_uploads
    refresh-IsShown h =
        let all = store.get_all h.db in
        record {
          shows = λ u.
              let (down, up) = In-sort newer_first u all in
              let (found, back) = laws.listed u h.db in (λ i. found (down i), λ e. up (back e));
          newest_first = sort-IsSorted newer_first newer_total newer_trans all;
        }

    request_committed :
        (r : Request) (h : History store)
        → IsShown (request true true r h)
          × ((i : Text) → remembered (request true true r h) i ≡ meaning r (remembered h) i)
    unfolding save rename remove after refresh
    request_committed (saves u) h =
        (refresh-IsShown (record h { db = store.put u h.db }), λ i. laws.get_put i u h.db)
    request_committed (renames id label) h = (
      refresh-IsShown (record h { db = update_upload_label store id label h.db }),
      λ i. update_upload_label-meaning id label i h.db,
    )
    request_committed (removes id) h =
        (refresh-IsShown (record h { db = store.delete id h.db }), λ i. laws.get_delete i id h.db)

    request_done :
        (commits : Bool) (r : Request) (h : History store)
        → IsShown h
        → IsShown (request commits true r h)
          × (remembered (request commits true r h)
              ≡ (if commits then meaning r (remembered h) else remembered h))
    unfolding save rename remove after
    request_done true r h shown = let (now, means) = request_committed r h in (now, fun_ext means)
    request_done false (saves u) h shown = (shown, refl)
    request_done false (renames id label) h shown = (shown, refl)
    request_done false (removes id) h shown = (shown, refl)

  -- Calls, each with whether its transaction commits.
  abbrev pub requests : List (Bool × Request) → History store → History store
  requests [] h = h
  requests ((commits, r) ∷ rs) h = requests rs (request commits true r h)

  abbrev pub meanings : List (Bool × Request) → Remembered → Remembered
  meanings [] m = m
  meanings ((commits, r) ∷ rs) m = meanings rs (if commits then meaning r m else m)

  -- With an object store that keeps to its documentation and can be read, after any calls, whether
  -- their transactions commit or not, the database holds what the calls that committed mean: a save
  -- sets an upload, a new label is given to an upload that is there and to no other, a removal takes
  -- one away. The page shows exactly the uploads of the database, the newest first.
  pub requests-IsShown :
      IsKeyedById store
      → (rs : List (Bool × Request)) (h : History store) → IsShown h
      → IsShown (requests rs h) × (remembered (requests rs h) ≡ meanings rs (remembered h))
  requests-IsShown laws [] h shown = (shown, refl)
  requests-IsShown laws ((commits, r) ∷ rs) h shown =
      let (now, means) = request_done laws commits r h shown in
      let (later, same) = requests-IsShown laws rs (request commits true r h) now in
      (later, same ∙ ap (meanings rs) means)
