-- ===== src/Web/Upload/Retries.antt =====
-- web/src/lib/evmfs.ts, `uploadFiles`: three attempts at every batch.
use evmfs.Prelude.{
  ℕ, zero, suc, ◌≡◌, refl, sym, ◌∙◌, subst, ◌⊎◌, inl, inr, List, [], ◌∷◌, length, length-append, ok,
  Bool-cases, arith,
}
use evmfs.Contract.{Call}
use evmfs.Web.Units.{FileEntry, UploadUnit, Batch}
use evmfs.Web.ConfirmedMap.{all_confirmed}
use evmfs.Web.Upload.{
  PageLog, mined, PageEnv, Page, call_of, record_mined, attempt_batch, upload_batch, upload_loop,
  batch_retries, sending,
}
use evmfs.Web.Upload.Cases.{attempt_batch-cases}

module _ (env : PageEnv) (files : List FileEntry) where
  -- The transaction that is sent as the `n`th is mined.
  pub record IsMined (n : ℕ) (call : Call) : Type 0 where
    pub block : ℕ
    pub gas : ℕ
    pub logs : List PageLog
    pub answer : env.submit n call ≡ mined block gas logs

  -- Of `left` transactions from the `n`th one is mined.
  abbrev pub IsMinedWithin : ℕ → ℕ → Call → Type 0
  IsMinedWithin zero n call = ⊥
  IsMinedWithin (suc left) n call = IsMined n call ⊎ IsMinedWithin left (suc n) call

  sent_one :
      (page : Page) (call : Call) → length (sending env page call).sent ≡ suc (length page.sent)
  sent_one page call = omega (arith, length-append page.sent (call ∷ []))

  attempt_batch-ok :
      (units : List UploadUnit) (left : ℕ) (page : Page)
      → IsMinedWithin left (length page.sent) (call_of units)
      → (done : Page) × (attempt_batch env files units left page ≡ ok done)
  unfolding attempt_batch
  attempt_batch-ok units zero page h = absurd h
  attempt_batch-ok units (suc left) page (inl m) =
      (record_mined env files units m.block m.gas m.logs page, rw (m.answer, attempt_batch))
  attempt_batch-ok units (suc left) page (inr h) =
      elim (attempt_batch-cases env files units left page) [
        | inr now ↦ (record_mined env files units now.block now.gas now.logs page, now.result)
        | inl again ↦
            let next = sending env page (call_of units) in
            let within : IsMinedWithin left (length next.sent) (call_of units) =
              subst (λ n. IsMinedWithin left n (call_of units))
                (sym (sent_one page (call_of units))) h in
            let (done, same) = attempt_batch-ok units left next within in (done, again ∙ same)
      ]

  upload_batch-ok :
      (batch : Batch) (page : Page)
      → IsMinedWithin batch_retries (length page.sent) (call_of batch.units)
      → (done : Page) × (upload_batch env files batch page ≡ ok done)
  unfolding upload_batch
  upload_batch-ok batch page h = elim (Bool-cases (all_confirmed page.confirmed batch.units)) [
    | inl e ↦ (page, rw e)
    | inr e ↦
        let (done, same) = attempt_batch-ok batch.units batch_retries page h in (done, rw e same)
  ]

  -- If of every three transactions in a row for one call one is mined, the loop ends with all batches
  -- sent or skipped, from whatever page.
  pub upload_loop-ok :
      (batches : List Batch) (page : Page)
      → ((n : ℕ) (call : Call) → IsMinedWithin batch_retries n call)
      → (done : Page) × (upload_loop env files batches page ≡ ok done)
  unfolding upload_loop
  upload_loop-ok [] page h = (page, refl)
  upload_loop-ok (batch ∷ batches) page h =
      let (next, sent) = upload_batch-ok batch page (h (length page.sent) (call_of batch.units)) in
      let (done, later) = upload_loop-ok batches next h in (done, rw (sent, upload_loop) later)
