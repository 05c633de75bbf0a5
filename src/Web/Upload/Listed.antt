-- ===== src/Web/Upload/Listed.antt =====
-- web/src/lib/evmfs.ts, `uploadFiles`: the manifest that an upload of the page stores.
use evmfs.Prelude.{
  ℕ, ◌≡◌, sym, ◌∙◌, ap, subst, true, Option, some, List, [], ◌∷◌, ◌++◌, map, length, length-map,
  All, Result, ok,
}
use evmfs.Prelude.Text.{Text}
use evmfs.Prelude.Member.{In, In-map}
use evmfs.Contract.{Call, events, store_manifest}
use evmfs.Cli.Batch
use evmfs.Cli.Batch.{expand_files_to_units}
use evmfs.Cli.Batch.Files.{IndexedFrom}
use evmfs.Cli.Manifest.{ManifestEntry, build_entry, manifest_json}
use evmfs.Cli.Upload.Assemble.Ascending.{Records}
use evmfs.Cli.Upload.Assemble.Complete.{IsFaithful, IsComplete}
use evmfs.Cli.Upload.Assemble.Entries.{Lists, assemble-Lists}
use evmfs.Web.Units.{FileEntry, Batch, units_of_files, batches_of_units}
use evmfs.Web.Units.Chunking.{read_of, entry_of, units_of_files-expand_files_to_units}
use evmfs.Web.Units.Packed.{all_units, batches_of_units-IsFull}
use evmfs.Web.Progress.{SavedProgress, Stored}
use evmfs.Web.Manifest.{build_manifest_entries}
use evmfs.Web.Manifest.Entries.{build_manifest_entries-build_entry}
use evmfs.Web.ConfirmedMap.{unit_values}
use evmfs.Web.ConfirmedMap.OnePlace.{confirmed_from-IsKeyed}
use evmfs.Web.Upload.{
  PageLog, mined, page_manifest_hash, PageEnv, Page, Uploaded, upload_loop, upload_files,
  saved_units, batch_retries, uploaded_with, upload_manifest_with,
}
use evmfs.Web.Upload.Confirmed.{IsHonestPage, HasDistinctHashes, own_topic-page_log}
use evmfs.Web.Upload.Retries.{IsMinedWithin, IsMined, upload_loop-ok}
use evmfs.Web.Upload.Completed.{first_page, upload_files-cases}
use evmfs.Web.Upload.Faithful.{confirmed_from-IsOf, upload_loop-IsFaithful, upload_loop-IsComplete}

same_ok : {A E : Type 0} (a b : A) (r : Result E A) → r ≡ ok a → r ≡ ok b → a ≡ b
same_ok a b r e h = cc

module _ (env : PageEnv) (honest : IsHonestPage env) (files : List FileEntry) (gas_limit : ℕ)
    (saved : Option SavedProgress) (filenames : ℕ → Option Text) (storage : Stored)
    (indexed : IndexedFrom 0 (map entry_of files))
    (distinct : All
      (λ b. HasDistinctHashes env b.units)
      (batches_of_units (units_of_files files) gas_limit))
    (before : Records env.keccak256
      (expand_files_to_units (map entry_of files))
      (saved_units env saved))
    (named : (f : FileEntry) → In f files → filenames f.index ≡ some f.name) where
  abbrev batches : List Batch
  batches = batches_of_units (units_of_files files) gas_limit

  abbrev first : Page
  first = first_page env files filenames saved storage

  batch_units : map read_of (all_units batches) ≡ expand_files_to_units (map entry_of files)
  batch_units =
      ap (map read_of) (batches_of_units-IsFull gas_limit (units_of_files files)).0
      ∙ units_of_files-expand_files_to_units files

  named_entry :
      (f : Batch.FileEntry) → In f (map entry_of files) → filenames f.index ≡ some f.filename
  named_entry f i =
      let (g, j, same) = In-map entry_of f files i in
      subst (λ (h : Batch.FileEntry). filenames h.index ≡ some h.filename) same (named g j)

  -- The entries that are made once the loop has ended.
  record IsListedBy (entries : List ManifestEntry) (done : Page) : Type 0 where
    lists : Lists env.keccak256 (map entry_of files) entries
    built :
        build_manifest_entries (length files) (unit_values done.confirmed) filenames
        ≡ ok (map (build_entry true) entries)

  done-IsListedBy :
      (done : Page)
      → upload_loop env files batches first ≡ ok done
      → (entries : List ManifestEntry) × IsListedBy entries done
  done-IsListedBy done completes =
      let keyed = confirmed_from-IsKeyed [] (saved_units env saved) tt in
      let recorded =
        confirmed_from-IsOf env (all_units batches) [] (saved_units env saved) (λ c i. absurd i)
          (subst (λ us. Records env.keccak256 us (saved_units env saved)) (sym batch_units)
            before) in
      let confirmed = unit_values done.confirmed in
      let faithful : IsFaithful env.keccak256 (expand_files_to_units (map entry_of files))
          confirmed =
        subst (λ us. IsFaithful env.keccak256 us confirmed) batch_units
          (upload_loop-IsFaithful env files batches first done keyed recorded completes) in
      let complete : IsComplete env.keccak256 (expand_files_to_units (map entry_of files))
          confirmed =
        subst (λ us. IsComplete env.keccak256 us confirmed) batch_units
          (upload_loop-IsComplete env files batches first done keyed recorded completes honest
            distinct) in
      let (entries, made, built) =
        build_manifest_entries-build_entry env.keccak256 (map entry_of files) confirmed filenames
          indexed faithful complete named_entry in
      let (listed, made_too, lists) =
        assemble-Lists env.keccak256 (map entry_of files) confirmed indexed faithful complete in
      (
        entries,
        record {
          lists =
              subst (Lists env.keccak256 (map entry_of files))
                (same_ok listed entries _ made_too made) lists;
          built =
              subst
                (λ n.
                  build_manifest_entries n confirmed filenames
                  ≡ ok (map (build_entry true) entries))
                (length-map files entry_of) built;
        },
      )

  page_manifest_hash-keccak256 :
      (bytes : List ℕ) (n block gas : ℕ) (logs : List PageLog)
      → env.submit n (store_manifest bytes) ≡ mined block gas logs
      → page_manifest_hash env [] logs ≡ env.keccak256 bytes
  unfolding page_manifest_hash events
  page_manifest_hash-keccak256 bytes n block gas logs answer =
      let logged = honest.logged n (store_manifest bytes) block gas logs answer in
      rw logged (rw (own_topic-page_log env honest bytes, page_manifest_hash))

  -- Let the contract log what it stores, the files be numbered and named, no batch hold two units with
  -- one hash, and the saved progress, if any, record units of the files. If of every three transactions
  -- in a row for one call one is mined, and one that stores a manifest is mined at once, then the upload
  -- returns.
  pub upload_files-ok :
      ((n : ℕ) (call : Call) → IsMinedWithin env files batch_retries n call)
      → ((n : ℕ) (bytes : List ℕ) → IsMined env files n (store_manifest bytes))
      → (out : Uploaded) × (upload_files env files
            (batches_of_units (units_of_files files) gas_limit)
            saved
            filenames
            storage
          ≡ ok out)
  unfolding upload_files upload_manifest_with
  upload_files-ok within stores =
      let (done, completes) = upload_loop-ok env files batches first within in
      let (entries, listed) = done-IsListedBy done completes in
      let out = map (build_entry true) entries in
      let call = store_manifest (env.gzip_text (manifest_json out)) in
      let m = stores (length done.sent) (env.gzip_text (manifest_json out)) in
      (
        uploaded_with env done call m.block m.gas m.logs,
        rw (completes, upload_files)
            (rw (listed.built, upload_manifest_with) (rw (m.answer, upload_manifest_with))),
      )

  -- Let the contract log what it stores, the files be numbered and named, no batch hold two units with
  -- one hash, and the saved progress, if any, record units of the files. If the upload returns, its
  -- last transaction stores the manifest of entries that list the files in order, each with the hashes
  -- of its file's chunks in order, and the hash that it returns is the hash of the manifest's data.
  pub upload_files-Lists :
      (out : Uploaded)
      → upload_files env files
          (batches_of_units (units_of_files files) gas_limit)
          saved
          filenames
          storage
        ≡ ok out
      → (entries : List ManifestEntry) × (calls : List Call) × Lists env.keccak256
          (map entry_of files)
          entries
        × (out.page.sent
            ≡ calls
              ++ store_manifest (env.gzip_text (manifest_json (map (build_entry true) entries)))
                ∷ [])
        × (out.manifest_hash
            ≡ env.keccak256 (env.gzip_text (manifest_json (map (build_entry true) entries))))
  upload_files-Lists out h =
      let (done, completes, c) =
        upload_files-cases env files filenames batches saved storage out h in
      let (entries, listed) = done-IsListedBy done completes in
      let same : map (build_entry true) entries ≡ c.entries =
        same_ok (map (build_entry true) entries) c.entries _ listed.built c.built in
      (
        entries,
        done.sent,
        listed.lists,
        rw same c.sent,
        rw same (
            c.manifest_hash
            ∙ page_manifest_hash-keccak256 (env.gzip_text (manifest_json c.entries))
                (length done.sent) c.block c.gas c.logs c.answer),
      )
