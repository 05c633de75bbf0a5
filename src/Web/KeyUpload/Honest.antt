-- ===== src/Web/KeyUpload/Honest.antt =====
-- web/src/lib/evmfs.ts, `uploadFilesWithPrivateKey`: what the upload expects of its node, and the
-- wallet that sends the same transactions.
use evmfs.Prelude.{ℕ, zero, suc, ◌≡◌, refl, inl, inr, some, List, [], ◌∷◌, ◌++◌, map, Option-cases}
use evmfs.Prelude.Text.{Text}
use evmfs.Contract.{Call}
use evmfs.Web.Units.{UploadUnit}
use evmfs.Web.ConfirmedMap.{ConfirmedMap}
use evmfs.Web.Upload.{
  PageLog, PageReply, failed, reverted, mined, PageEnv, own_topic, unit_of_hash, confirm_log,
  confirm_logs, page_manifest_hash,
}
use evmfs.Web.KeyUpload.{
  KeyLog, KeyReply, key_failed, key_reverted, key_mined, KeyEnv, confirm_key_log, confirm_key_logs,
  key_manifest_hash,
}

abbrev pub plain_logs : List KeyLog → List PageLog
plain_logs = map (λ l. l.log)

abbrev pub plain_reply : KeyReply → PageReply
plain_reply key_failed = failed
plain_reply key_reverted = reverted
plain_reply (key_mined block gas logs) = mined block gas (plain_logs logs)

-- The wallet that sends every transaction under the nonce that `count` gives for its position.
abbrev pub wallet_env : KeyEnv → (ℕ → ℕ) → PageEnv
wallet_env key count = record key.shared {
  submit = λ n call. plain_reply (key.sign n (count n) call);
}

-- The nonces of the first `n` transactions.
abbrev pub counts : (ℕ → ℕ) → ℕ → List ℕ
counts count zero = []
counts count (suc n) = counts count n ++ count n ∷ []

-- ethers finds a `Store` event in exactly the logs of the contract that have a topic.
abbrev pub ReadsStores : PageEnv → List KeyLog → Type 0
ReadsStores env [] = Unit
ReadsStores env (l ∷ logs) = (l.store_hash ≡ own_topic env l.log) × ReadsStores env logs

-- The node tells the account's transaction count, which a mined transaction raises by one, and the
-- logs of a receipt are read as the web page reads them.
pub record IsHonest (key : KeyEnv) (count : ℕ → ℕ) : Type 0 where
  pub tells_count : (n : ℕ) → key.pending_count n ≡ some (count n)
  pub mined_counts :
      (n : ℕ) (call : Call) (block gas : ℕ) (logs : List KeyLog)
      → key.sign n (count n) call ≡ key_mined block gas logs
      → count (suc n) ≡ suc (count n)
  pub reads_stores :
      (n : ℕ) (call : Call) (block gas : ℕ) (logs : List KeyLog)
      → key.sign n (count n) call ≡ key_mined block gas logs
      → ReadsStores key.shared logs

module _ (key : KeyEnv) (count : ℕ → ℕ) where
  confirm_key_log-confirm_log :
      (units : List UploadUnit) (block : ℕ) (l : KeyLog) (m : ConfirmedMap)
      → l.store_hash ≡ own_topic key.shared l.log
      → confirm_key_log key units block l m ≡ confirm_log (wallet_env key count) units block l.log m
  unfolding confirm_key_log confirm_log own_topic unit_of_hash
  confirm_key_log-confirm_log units block l m e = rw (e, confirm_key_log) refl

  pub confirm_key_logs-confirm_logs :
      (units : List UploadUnit) (block : ℕ) (logs : List KeyLog) (m : ConfirmedMap)
      → ReadsStores key.shared logs
      → confirm_key_logs key units block logs m
        ≡ confirm_logs (wallet_env key count) units block (plain_logs logs) m
  unfolding confirm_key_logs confirm_logs
  confirm_key_logs-confirm_logs units block [] m h = refl
  confirm_key_logs-confirm_logs units block (l ∷ logs) m (e, h) =
      rw (confirm_key_log-confirm_log units block l m e) (
        confirm_key_logs-confirm_logs units block logs
          (confirm_log (wallet_env key count) units block l.log m) h)

  pub key_manifest_hash-page_manifest_hash :
      (hash : Text) (logs : List KeyLog)
      → ReadsStores key.shared logs
      → key_manifest_hash key hash logs
        ≡ page_manifest_hash (wallet_env key count) hash (plain_logs logs)
  unfolding key_manifest_hash page_manifest_hash own_topic
  key_manifest_hash-page_manifest_hash hash [] h = refl
  key_manifest_hash-page_manifest_hash hash (l ∷ logs) (e, h) =
      elim (Option-cases (own_topic key.shared l.log)) [
        | inl n ↦
            rw (e, n, key_manifest_hash, page_manifest_hash)
              (key_manifest_hash-page_manifest_hash hash logs h)
        | inr (x, s) ↦
            rw (e, s, key_manifest_hash, page_manifest_hash)
              (key_manifest_hash-page_manifest_hash x logs h)
      ]
