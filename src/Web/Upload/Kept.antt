-- ===== src/Web/Upload/Kept.antt =====
-- web/src/lib/evmfs.ts, `uploadFiles`: what every receipt keeps of the confirmed units, the loop keeps.
use evmfs.Prelude.{
  ℕ, zero, suc, sym, inl, inr, List, [], ◌∷◌, All, Result, ok, err, subst, Bool-cases, Result-cases,
}
use evmfs.Web.Units.{FileEntry, UploadUnit, Batch}
use evmfs.Web.ConfirmedMap.{ConfirmedMap, all_confirmed}
use evmfs.Web.Upload.{
  PageLog, PageEnv, Page, call_of, confirm_log, confirm_logs, record_mined, attempt_batch,
  upload_batch, upload_loop, batch_retries, sending,
}
use evmfs.Web.Upload.Cases.{attempt_batch-cases}

-- The page that a result carries.
abbrev pub page_of : Result Page Page → Page
page_of (ok page) = page
page_of (err page) = page

module _ (env : PageEnv) (P : ConfirmedMap → Type 0) where
  -- A log of a receipt for the units keeps the predicate.
  abbrev pub Keeps : List UploadUnit → Type 0
  Keeps units =
      (block : ℕ) (log : PageLog) (m : ConfirmedMap) → P m → P (confirm_log env units block log m)

  confirm_logs-Keeps :
      (units : List UploadUnit)
      → Keeps units
      → (block : ℕ) (logs : List PageLog) (m : ConfirmedMap) → P m
      → P (confirm_logs env units block logs m)
  unfolding confirm_logs
  confirm_logs-Keeps units keeps block [] m h = h
  confirm_logs-Keeps units keeps block (log ∷ logs) m h =
      confirm_logs-Keeps units keeps block logs (confirm_log env units block log m)
        (keeps block log m h)

  module _ (files : List FileEntry) where
    attempt_batch-Keeps :
        (units : List UploadUnit)
        → Keeps units
        → (left : ℕ) (page : Page) → P page.confirmed
        → P (page_of (attempt_batch env files units left page)).confirmed
    unfolding attempt_batch record_mined
    attempt_batch-Keeps units keeps zero page h = h
    attempt_batch-Keeps units keeps (suc left) page h =
        elim (attempt_batch-cases env files units left page) [
          | inl again ↦
              subst (λ r. P (page_of r).confirmed) (sym again)
                (attempt_batch-Keeps units keeps left (sending env page (call_of units)) h)
          | inr now ↦
              subst (λ r. P (page_of r).confirmed) (sym now.result)
                (confirm_logs-Keeps units keeps now.block now.logs page.confirmed h)
        ]

    upload_batch-Keeps :
        (batch : Batch) (page : Page)
        → Keeps batch.units
        → P page.confirmed
        → P (page_of (upload_batch env files batch page)).confirmed
    unfolding upload_batch
    upload_batch-Keeps batch page keeps h =
        elim (Bool-cases (all_confirmed page.confirmed batch.units)) [
          | inl e ↦ rw e h
          | inr e ↦ rw e (attempt_batch-Keeps batch.units keeps batch_retries page h)
        ]

    pub upload_loop-Keeps :
        (batches : List Batch) (page : Page)
        → All (λ b. Keeps b.units) batches
        → P page.confirmed
        → P (page_of (upload_loop env files batches page)).confirmed
    unfolding upload_loop
    upload_loop-Keeps [] page keeps h = h
    upload_loop-Keeps (batch ∷ batches) page (keep, keeps) h =
        let first = upload_batch-Keeps batch page keep h in
        elim (Result-cases (upload_batch env files batch page)) [
          | inl (later, e) ↦
              rw (e, upload_loop)
                (upload_loop-Keeps batches later keeps
                  (subst (λ r. P (page_of r).confirmed) e first))
          | inr (stopped, e) ↦ rw (e, upload_loop) (subst (λ r. P (page_of r).confirmed) e first)
        ]
