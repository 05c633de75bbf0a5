-- ===== src/Web/KeyUpload/Attempts.antt =====
-- web/src/lib/evmfs.ts, `uploadFilesWithPrivateKey`: its loop beside that of `uploadFiles`.
use evmfs.Prelude.{
  ℕ, zero, suc, ◌≡◌, refl, ap, ◌⊎◌, inl, inr, some, List, [], ◌∷◌, ◌++◌, length, length-append,
  Result, ok, err, Bool-cases, Result-cases, arith,
}
use evmfs.Contract.{Call}
use evmfs.Web.Units.{FileEntry, UploadUnit, Batch}
use evmfs.Web.ConfirmedMap.{all_confirmed}
use evmfs.Web.Upload.{
  Page, call_of, record_mined, attempt_batch, upload_batch, upload_loop, batch_retries,
}
use evmfs.Web.KeyUpload.{
  KeyLog, KeyReply, key_failed, key_reverted, key_mined, KeyEnv, KeyPage, key_sending,
  key_record_mined, renewed, key_attempt_batch, key_upload_batch, key_upload_loop,
}
use evmfs.Web.KeyUpload.Honest.{
  plain_logs, wallet_env, counts, IsHonest, confirm_key_logs-confirm_logs,
}

pub KeyReply-cases :
    (r : KeyReply)
    → ((r ≡ key_failed) ⊎ (r ≡ key_reverted))
      ⊎ ((block : ℕ) × (gas : ℕ) × (logs : List KeyLog) × (r ≡ key_mined block gas logs))
KeyReply-cases key_failed = inl (inl refl)
KeyReply-cases key_reverted = inl (inr refl)
KeyReply-cases (key_mined block gas logs) = inr (block, gas, logs, refl)

module _ (key : KeyEnv) (count : ℕ → ℕ) where
  -- What was sent was sent under the counts of its positions.
  abbrev pub HasSentInOrder : KeyPage → Type 0
  HasSentInOrder s = s.nonces ≡ counts count (length s.page.sent)

  -- The nonce at hand is the count of the next position as well.
  abbrev pub IsNumbered : KeyPage → Type 0
  IsNumbered s = HasSentInOrder s × (s.nonce ≡ count (length s.page.sent))

  -- With no attempt left the nonce at hand does not matter.
  abbrev IsReady : ℕ → KeyPage → Type 0
  IsReady zero s = HasSentInOrder s
  IsReady (suc left) s = IsNumbered s

  -- A result of the loop beside one of the loop of `uploadFiles`.
  abbrev pub Agrees : Result KeyPage KeyPage → Result Page Page → Type 0
  Agrees (ok s) r = (r ≡ ok s.page) × IsNumbered s
  Agrees (err s) r = (r ≡ err s.page) × HasSentInOrder s

  pub sent_next :
      (s : KeyPage) (call : Call)
      → IsNumbered s
      → s.nonces ++ s.nonce ∷ [] ≡ counts count (length (s.page.sent ++ call ∷ []))
  sent_next s call (order, next) =
      let one : length (s.page.sent ++ call ∷ []) ≡ suc (length s.page.sent) =
        omega (arith, length-append s.page.sent (call ∷ [])) in
      rw (one, order, next) refl

  module _ (honest : IsHonest key count) where
    renewed-IsReady :
        (left : ℕ) (s : KeyPage)
        → HasSentInOrder s
        → (again : KeyPage) × (renewed key left s ≡ some again)
          × (again.page ≡ s.page)
          × IsReady left again
    unfolding renewed
    renewed-IsReady zero s h = (s, refl, refl, h)
    renewed-IsReady (suc left) s h = (
      record s { nonce = count (length s.page.sent) },
      rw (honest.tells_count (length s.page.sent), renewed) refl,
      refl,
      (h, refl),
    )

    module _ (files : List FileEntry) (units : List UploadUnit) where
      key_record_mined-record_mined :
          (block gas : ℕ) (logs : List KeyLog) (s : KeyPage)
          → key.sign (length s.page.sent) (count (length s.page.sent)) (call_of units)
            ≡ key_mined block gas logs
          → record_mined (wallet_env key count) files units block gas (plain_logs logs) s.page
            ≡ (key_record_mined key files units block gas logs s).page
      unfolding key_record_mined record_mined
      key_record_mined-record_mined block gas logs s e =
          let reads = honest.reads_stores (length s.page.sent) (call_of units) block gas logs e in
          rw (confirm_key_logs-confirm_logs key count units block logs s.page.confirmed reads) refl

      key_record_mined-IsNumbered :
          (block gas : ℕ) (logs : List KeyLog) (s : KeyPage)
          → IsNumbered s
          → key.sign (length s.page.sent) (count (length s.page.sent)) (call_of units)
            ≡ key_mined block gas logs
          → IsNumbered (key_record_mined key files units block gas logs s)
      unfolding key_record_mined
      key_record_mined-IsNumbered block gas logs s h e =
          let one : length (s.page.sent ++ call_of units ∷ []) ≡ suc (length s.page.sent) =
            omega (arith, length-append s.page.sent (call_of units ∷ [])) in
          let raised = honest.mined_counts (length s.page.sent) (call_of units) block gas logs e in
          (sent_next s (call_of units) h, rw (one, raised, h.1) refl)

      pub key_attempt_batch-Agrees :
          (left : ℕ) (s : KeyPage)
          → IsReady left s
          → Agrees
              (key_attempt_batch key files units left s)
              (attempt_batch (wallet_env key count) files units left s.page)
      unfolding key_attempt_batch attempt_batch
      key_attempt_batch-Agrees zero s h = (refl, h)
      key_attempt_batch-Agrees (suc left) s h =
          let call = call_of units in
          let next = key_sending key s call in
          let (again, found, same, ready) = renewed-IsReady left next (sent_next s call h) in
          elim (KeyReply-cases (key.sign (length s.page.sent) (count (length s.page.sent)) call)) [
            | inl (inl e) ↦
                rw (h.1, e, found, ← same, key_attempt_batch, attempt_batch)
                  (key_attempt_batch-Agrees left again ready)
            | inl (inr e) ↦
                rw (h.1, e, found, ← same, key_attempt_batch, attempt_batch)
                  (key_attempt_batch-Agrees left again ready)
            | inr (block, gas, logs, e) ↦
                rw (h.1, e, key_attempt_batch, attempt_batch)
                  (
                    ap ok (key_record_mined-record_mined block gas logs s e),
                    key_record_mined-IsNumbered block gas logs s h e,
                  )
          ]

    module _ (files : List FileEntry) where
      key_upload_batch-Agrees :
          (batch : Batch) (s : KeyPage)
          → IsNumbered s
          → Agrees
              (key_upload_batch key files batch s)
              (upload_batch (wallet_env key count) files batch s.page)
      unfolding key_upload_batch upload_batch
      key_upload_batch-Agrees batch s h =
          elim (Bool-cases (all_confirmed s.page.confirmed batch.units)) [
            | inl e ↦ rw e (refl, h)
            | inr e ↦ rw e (key_attempt_batch-Agrees files batch.units batch_retries s h)
          ]

      pub key_upload_loop-Agrees :
          (batches : List Batch) (s : KeyPage)
          → IsNumbered s
          → Agrees
              (key_upload_loop key files batches s)
              (upload_loop (wallet_env key count) files batches s.page)
      unfolding key_upload_loop upload_loop
      key_upload_loop-Agrees [] s h = (refl, h)
      key_upload_loop-Agrees (batch ∷ batches) s h =
          let first = key_upload_batch-Agrees batch s h in
          elim (Result-cases (key_upload_batch key files batch s)) [
            | inl (next, e) ↦
                let (same, numbered) = rw e at first in
                rw (e, same, key_upload_loop, upload_loop)
                  (key_upload_loop-Agrees batches next numbered)
            | inr (stopped, e) ↦
                let (same, order) = rw e at first in
                rw (e, same, key_upload_loop, upload_loop) (refl, order)
          ]
