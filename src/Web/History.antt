-- ===== src/Web/History.antt =====
-- web/src/lib/history.ts, web/src/hooks/useUploadHistory.ts and `exportAsJson` of
-- web/src/components/UploadHistory.tsx: the uploads that the page remembers. The object store of the
-- browser is a parameter.
pub mod Shown
use evmfs.Prelude.{ℕ, Bool, true, false, Option, none, some, List, ◌++◌, map, leb, if◌then◌else◌}
use evmfs.Prelude.Text.{Text}
use evmfs.Prelude.Digits.{decimal}
use evmfs.Prelude.Sort.{sort}

pub record SavedFile : Type 0 where
  pub index : ℕ
  pub filename : Text
  pub content_hash : Text

pub record SavedUpload : Type 0 where
  pub id : Text
  pub timestamp : ℕ
  pub chain_id : ℕ
  pub manifest_hash : Text
  pub base_uri : Text
  pub total_gas_used : ℕ
  pub file_count : ℕ
  pub files : List SavedFile
  pub label : Text

-- The object store "uploads", whose key is `id`.
pub record ObjectStore : Type 1 where
  pub Db : Type 0
  pub put : SavedUpload → Db → Db
  pub get : Text → Db → Option SavedUpload
  pub delete : Text → Db → Db
  pub get_all : Db → List SavedUpload

abbrev pub newer_first : SavedUpload → SavedUpload → Bool
newer_first a b = leb b.timestamp a.timestamp

-- The state of the hook and the database. Each call says whether its transaction commits, and
-- whether the reading after it succeeds.
module _ (store : ObjectStore) where
  pub record History : Type 0 where
    pub db : store.Db
    pub uploads : List SavedUpload
    pub loading : Bool

  unfoldable pub get_all_uploads : store.Db → List SavedUpload
  get_all_uploads db = sort newer_first (store.get_all db)

  -- `updateUploadLabel`
  unfoldable pub update_upload_label : Text → Text → store.Db → store.Db
  update_upload_label id label db = elim (store.get id db) [
    | none ↦ db
    | some upload ↦ store.put (record upload { label = label }) db
  ]

  unfoldable pub refresh : Bool → History → History
  refresh reads h =
      let uploads = if reads then get_all_uploads h.db else h.uploads in
      record { db = h.db; uploads = uploads; loading = false }

  -- A transaction that is aborted changes nothing, and the call ends there.
  unfoldable pub after : Bool → Bool → store.Db → History → History
  unfolding refresh
  after commits reads db h =
      if commits
      then refresh reads (record { db = db; uploads = h.uploads; loading = h.loading })
      else h

  unfoldable pub save : Bool → Bool → SavedUpload → History → History
  unfolding after
  save commits reads upload h = after commits reads (store.put upload h.db) h

  unfoldable pub rename : Bool → Bool → Text → Text → History → History
  unfolding after
  rename commits reads id label h = after commits reads (update_upload_label id label h.db) h

  unfoldable pub remove : Bool → Bool → Text → History → History
  unfolding after
  remove commits reads id h = after commits reads (store.delete id h.db) h

pub record ExportedFile : Type 0 where
  pub index : ℕ
  pub filename : Text
  pub content_hash : Text
  pub url : Text

abbrev pub exported_files : SavedUpload → List ExportedFile
exported_files upload =
    map
      (λ f. record {
        index = f.index;
        filename = f.filename;
        content_hash = f.content_hash;
        url = upload.base_uri ++ decimal f.index;
      })
      upload.files
