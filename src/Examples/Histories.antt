-- ===== src/Examples/Histories.antt =====
-- An object store that is a list with one upload for an id, and a history in it.
use evmfs.Prelude.{
  ◌≡◌, refl, sym, ap, ◌∙◌, subst, inl, inr, Bool, true, false, not, Option, none, some, List, [],
  ◌∷◌, keep, if◌then◌else◌, Bool-cases,
}
use evmfs.Prelude.Text.{Text, codes, text_eq, text_eq_refl, text_eq_sound}
use evmfs.Prelude.Member.{In}
use evmfs.Web.History.{SavedUpload, ObjectStore, History}
use evmfs.Web.History.Shown.{
  IsKeyedById, Request, saves, renames, removes, IsShown, remembered, requests, meanings,
  requests-IsShown,
}

abbrev get : Text → List SavedUpload → Option SavedUpload
get i [] = none
get i (u ∷ l) = if text_eq i u.id then some u else get i l

abbrev without : Text → List SavedUpload → List SavedUpload
without id l = keep (λ u. not (text_eq u.id id)) l

abbrev HasUniqueIds : List SavedUpload → Type 0
HasUniqueIds [] = Unit
HasUniqueIds (u ∷ l) = (get u.id l ≡ none) × HasUniqueIds l

get-without :
    (i id : Text) (l : List SavedUpload)
    → get i (without id l) ≡ (if text_eq i id then none else get i l)
get-without i id [] = elim (Bool-cases (text_eq i id)) [ inl e ↦ rw e refl | inr e ↦ rw e refl ]
get-without i id (u ∷ l) = elim (Bool-cases (text_eq u.id id)) [
  | inl gone ↦ elim (Bool-cases (text_eq i u.id)) [
    | inl here ↦
        let also : text_eq i id ≡ true =
          ap (λ x. text_eq x id) (text_eq_sound i u.id here) ∙ gone in
        rw (gone, here, also) (get-without i id l ∙ rw also refl)
    | inr there ↦ rw (gone, there) (get-without i id l)
  ]
  | inr kept ↦ elim (Bool-cases (text_eq i u.id)) [
    | inl here ↦
        let other : text_eq i id ≡ false =
          ap (λ x. text_eq x id) (text_eq_sound i u.id here) ∙ kept in
        rw (kept, here, other) refl
    | inr there ↦ rw (kept, there) (get-without i id l)
  ]
]

without-HasUniqueIds :
    (id : Text) (l : List SavedUpload) → HasUniqueIds l → HasUniqueIds (without id l)
without-HasUniqueIds id [] h = tt
without-HasUniqueIds id (u ∷ l) (new, h) = elim (Bool-cases (text_eq u.id id)) [
  | inl gone ↦ rw gone (without-HasUniqueIds id l h)
  | inr kept ↦ rw kept (get-without u.id id l ∙ rw (kept, new) refl, without-HasUniqueIds id l h)
]

get-keyed : (i : Text) (u : SavedUpload) (l : List SavedUpload) → get i l ≡ some u → u.id ≡ i
get-keyed i u [] h = absurd cc
get-keyed i u (v ∷ l) h = elim (Bool-cases (text_eq i v.id)) [
  | inl here ↦
      let h' : some v ≡ some u = rw here at h in
      let same : v ≡ u = cc in
      ap (λ (x : SavedUpload). x.id) (sym same) ∙ sym (text_eq_sound i v.id here)
  | inr there ↦ get-keyed i u l (rw there at h)
]

get-In : (i : Text) (u : SavedUpload) (l : List SavedUpload) → get i l ≡ some u → In u l
get-In i u [] h = absurd cc
get-In i u (v ∷ l) h = elim (Bool-cases (text_eq i v.id)) [
  | inl here ↦ let h' : some v ≡ some u = rw here at h in inl cc
  | inr there ↦ inr (get-In i u l (rw there at h))
]

In-get : (u : SavedUpload) (l : List SavedUpload) → HasUniqueIds l → In u l → get u.id l ≡ some u
In-get u [] h i = absurd i
In-get u (v ∷ l) (new, h) (inl same) =
    subst (λ x. get x.id (v ∷ l) ≡ some x) same (rw (text_eq_refl v.id) refl)
In-get u (v ∷ l) (new, h) (inr i) =
    let found = In-get u l h i in
    elim (Bool-cases (text_eq u.id v.id)) [
      | inl here ↦
          let none_there = ap (λ x. get x l) (text_eq_sound u.id v.id here) ∙ new in absurd cc
      | inr there ↦ rw there found
    ]

abbrev store : ObjectStore
store = record {
  Db = (l : List SavedUpload) × HasUniqueIds l;
  put = λ u db. (
    u ∷ without u.id db.0,
    (get-without u.id u.id db.0 ∙ rw (text_eq_refl u.id) refl, without-HasUniqueIds u.id db.0 db.1),
  );
  get = λ i db. get i db.0;
  delete = λ id db. (without id db.0, without-HasUniqueIds id db.0 db.1);
  get_all = λ db. db.0;
}

store-IsKeyedById : IsKeyedById store
store-IsKeyedById = record {
  get_put = get_put;
  get_delete = λ i id db. get-without i id db.0;
  keyed = λ i u db. get-keyed i u db.0;
  listed = λ u db. (In-get u db.0 db.1, get-In u.id u db.0);
}
  where
    get_put :
        (i : Text) (u : SavedUpload) (db : (l : List SavedUpload) × HasUniqueIds l)
        → get i (u ∷ without u.id db.0) ≡ (if text_eq i u.id then some u else get i db.0)
    get_put i u db = elim (Bool-cases (text_eq i u.id)) [
      | inl e ↦ rw e refl
      | inr e ↦ rw e (get-without i u.id db.0 ∙ rw e refl)
    ]

abbrev upload : SavedUpload
upload = record {
  id = codes "a";
  timestamp = 1700000000000;
  chain_id = 1;
  manifest_hash = codes "0xab";
  base_uri = codes "https://evmfs.xyz/1/7/0xab/";
  total_gas_used = 50000;
  file_count = 0;
  files = [];
  label = codes "Upload 1";
}

abbrev empty : History store
empty = record { db = ([], tt); uploads = []; loading = true }

empty-IsShown : IsShown store empty
empty-IsShown = record { shows = λ u. (λ i. absurd i, λ e. absurd cc); newest_first = tt }

abbrev calls : List (Bool × Request)
calls =
    (true, saves upload)
    ∷ (true, renames (codes "a") (codes "Site"))
    ∷ (false, removes (codes "a"))
    ∷ []

requests-IsShown_example :
    IsShown store (requests store calls empty)
    × (remembered store (requests store calls empty)
        ≡ meanings store calls (remembered store empty))
requests-IsShown_example = requests-IsShown store store-IsKeyedById calls empty empty-IsShown
