-- ===== src/Web/Upload/Cases.antt =====
-- web/src/lib/evmfs.ts, `uploadFiles`: what an attempt comes to.
use evmfs.Prelude.{ℕ, suc, ◌≡◌, refl, ◌⊎◌, inl, inr, List, length, ok}
use evmfs.Web.Units.{FileEntry, UploadUnit}
use evmfs.Web.Upload.{
  PageLog, PageReply, failed, reverted, mined, PageEnv, Page, call_of, record_mined, attempt_batch,
  sending,
}

pub PageReply-cases :
    (r : PageReply)
    → (r ≡ failed)
      ⊎ ((r ≡ reverted)
          ⊎ ((block : ℕ) × (gas : ℕ) × (logs : List PageLog) × (r ≡ mined block gas logs)))
PageReply-cases failed = inl refl
PageReply-cases reverted = inr (inl refl)
PageReply-cases (mined block gas logs) = inr (inr (block, gas, logs, refl))

module _ (env : PageEnv) (files : List FileEntry) (units : List UploadUnit) (left : ℕ)
    (page : Page) where
  -- The transaction is mined, and what it confirms is recorded.
  pub record IsRecordedNow : Type 0 where
    pub block : ℕ
    pub gas : ℕ
    pub logs : List PageLog
    pub answer : env.submit (length page.sent) (call_of units) ≡ mined block gas logs
    pub result :
        attempt_batch env files units (suc left) page
        ≡ ok (record_mined env files units block gas logs page)

  -- An attempt is made again after the transaction, or records what it confirms.
  pub attempt_batch-cases :
      (attempt_batch env files units (suc left) page
        ≡ attempt_batch env files units left (sending env page (call_of units)))
      ⊎ IsRecordedNow
  unfolding attempt_batch
  attempt_batch-cases = answer (env.submit (length page.sent) (call_of units)) refl
    where
      answer :
          (r : PageReply)
          → env.submit (length page.sent) (call_of units) ≡ r
          → (attempt_batch env files units (suc left) page
              ≡ attempt_batch env files units left (sending env page (call_of units)))
            ⊎ IsRecordedNow
      answer failed e = inl (rw (e, attempt_batch))
      answer reverted e = inl (rw (e, attempt_batch))
      answer (mined block gas logs) e = inr (record {
        block = block;
        gas = gas;
        logs = logs;
        answer = e;
        result = rw (e, attempt_batch);
      })
