-- ===== src/Web/Upload/Keyed.antt =====
-- web/src/lib/evmfs.ts, `uploadFiles`: the map of confirmed units through a run.
use evmfs.Prelude.{ℕ, ◌≡◌, sym, inl, inr, Option, List, [], ok, subst, Option-cases, Result-cases}
use evmfs.Prelude.Text.{Text}
use evmfs.Cli.Upload.Resume.Partition.{HasUniquePlaces}
use evmfs.Web.Units.{FileEntry, UploadUnit, Batch}
use evmfs.Web.Progress.{SavedProgress, Stored}
use evmfs.Web.ConfirmedMap.{ConfirmedMap, confirmed_unit}
use evmfs.Web.Upload.{
  PageLog, PageEnv, Page, Uploaded, own_topic, unit_of_hash, confirm_log, upload_loop, upload_files,
  saved_units,
}
use evmfs.Web.ConfirmedMap.OnePlace.{
  IsKeyed, set_unit-IsKeyed, confirmed_from-IsKeyed, unit_values-HasUniquePlaces,
}
use evmfs.Web.Upload.Completed.{confirmed_in, first_page, upload_files-cases}
use evmfs.Web.Upload.Kept.{page_of, upload_loop-Keeps}
use evmfs.Prelude.Member.{All-In}

module _ (env : PageEnv) where
  confirm_log-IsKeyed :
      (units : List UploadUnit) (block : ℕ) (log : PageLog) (m : ConfirmedMap)
      → IsKeyed m
      → IsKeyed (confirm_log env units block log m)
  unfolding confirm_log
  confirm_log-IsKeyed units block log m h = elim (Option-cases (own_topic env log)) [
    | inl e ↦ rw (e, confirm_log) h
    | inr (hash, e) ↦ elim (Option-cases (unit_of_hash env units hash)) [
      | inl n ↦ rw (e, n, confirm_log) h
      | inr (u, s) ↦ rw (e, s, confirm_log) (set_unit-IsKeyed (confirmed_unit hash block u) m h)
    ]
  ]

  pub upload_loop-IsKeyed :
      (files : List FileEntry) (batches : List Batch) (page : Page)
      → IsKeyed page.confirmed
      → IsKeyed (page_of (upload_loop env files batches page)).confirmed
  upload_loop-IsKeyed files batches page h =
      upload_loop-Keeps env IsKeyed files batches page
        (All-In _ batches (λ b i. confirm_log-IsKeyed b.units)) h

  done-HasUniquePlaces :
      (files : List FileEntry) (batches : List Batch) (saved : Option SavedProgress)
      (filenames : ℕ → Option Text) (storage : Stored) (out : Uploaded)
      → upload_files env files batches saved filenames storage ≡ ok out
      → HasUniquePlaces out.confirmed
  done-HasUniquePlaces files batches saved filenames storage out h =
      let (done, e, completed) =
        upload_files-cases env files filenames batches saved storage out h in
      let keyed =
        upload_loop-IsKeyed files batches (first_page env files filenames saved storage)
          (confirmed_from-IsKeyed [] (saved_units env saved) tt) in
      subst HasUniquePlaces completed.confirmed (
        unit_values-HasUniquePlaces done.confirmed
          (subst (λ r. IsKeyed (page_of r).confirmed) e keyed))

  -- Whatever the transactions come to and whatever progress was saved, the confirmed units that an
  -- upload returns stand at different places.
  pub upload_files-HasUniquePlaces :
      (files : List FileEntry) (batches : List Batch) (saved : Option SavedProgress)
      (filenames : ℕ → Option Text) (storage : Stored)
      → HasUniquePlaces (confirmed_in (upload_files env files batches saved filenames storage))
  upload_files-HasUniquePlaces files batches saved filenames storage =
      elim (Result-cases (upload_files env files batches saved filenames storage)) [
        | inl (out, e) ↦
            subst (λ r. HasUniquePlaces (confirmed_in r)) (sym e)
              (done-HasUniquePlaces files batches saved filenames storage out e)
        | inr (stopped, e) ↦ subst (λ r. HasUniquePlaces (confirmed_in r)) (sym e) tt
      ]
