-- ===== src/Examples/KeyUploads.antt =====
-- Uploads with a private key: an account with five transactions, and a contract whose first
-- transaction fails.
use evmfs.Prelude.{ℕ, zero, suc, ◌+◌, ◌≡◌, refl, subst, none, some, List, [], ◌∷◌, map, arith}
use evmfs.Contract.{StoreEvent, store_event, Call, store, store_batch, store_manifest, events}
use evmfs.Prelude.Text.{to_lower}
use evmfs.Web.Progress.{absent}
use evmfs.Web.Upload.{own_topic, upload_files}
use evmfs.Web.KeyUpload.{
  KeyLog, KeyReply, key_failed, key_mined, KeyEnv, upload_files_with_private_key,
}
use evmfs.Web.KeyUpload.Honest.{wallet_env, IsHonest, ReadsStores}
use evmfs.Web.KeyUpload.SameAsWallet.{
  wallet_result, AllInOrder, upload_files_with_private_key-upload_files,
  upload_files_with_private_key-AllInOrder,
}
use evmfs.Examples.World.{hash}
use evmfs.Examples.Pages.{address, env, page_files, batch}

abbrev key_log_of : StoreEvent → KeyLog
key_log_of e = record {
  log = record { address = address; topic = some e.content_hash };
  store_hash = some e.content_hash;
}

abbrev key_logs : Call → List KeyLog
key_logs call = map key_log_of (events hash call)

abbrev sign : ℕ → ℕ → Call → KeyReply
sign zero nonce call = key_failed
sign (suc n) nonce call = key_mined (n + 7) 50000 (key_logs call)

abbrev count : ℕ → ℕ
count zero = 5
count (suc n) = n + 5

abbrev key : KeyEnv
key = record { shared = env; sign = sign; pending_count = λ n. some (count n) }

read_store :
    (bytes : List ℕ) → some (hash bytes) ≡ own_topic env (key_log_of (store_event hash bytes)).log
unfolding own_topic to_lower
read_store bytes = refl

items-ReadsStores :
    (items : List (List ℕ)) → ReadsStores env (map key_log_of (map (store_event hash) items))
items-ReadsStores [] = tt
items-ReadsStores (i ∷ items) = (read_store i, items-ReadsStores items)

key_logs-ReadsStores : (call : Call) → ReadsStores env (key_logs call)
unfolding events
key_logs-ReadsStores (store bytes) = (read_store bytes, tt)
key_logs-ReadsStores (store_batch items) = items-ReadsStores items
key_logs-ReadsStores (store_manifest bytes) = (read_store bytes, tt)

logs_of : {b c g h : ℕ} {ls ms : List KeyLog} → key_mined b g ls ≡ key_mined c h ms → ls ≡ ms
logs_of e = cc

key-IsHonest : IsHonest key count
key-IsHonest = record {
  tells_count = λ n. refl;
  mined_counts = mined_counts;
  reads_stores = reads_stores;
}
  where
    mined_counts :
        (n : ℕ) (call : Call) (block gas : ℕ) (logs : List KeyLog)
        → sign n (count n) call ≡ key_mined block gas logs
        → count (suc n) ≡ suc (count n)
    mined_counts zero call block gas logs e = cc
    mined_counts (suc n) call block gas logs e = omega arith

    reads_stores :
        (n : ℕ) (call : Call) (block gas : ℕ) (logs : List KeyLog)
        → sign n (count n) call ≡ key_mined block gas logs
        → ReadsStores env logs
    reads_stores zero call block gas logs e = cc
    reads_stores (suc n) call block gas logs e =
        subst (ReadsStores env) (logs_of e) (key_logs-ReadsStores call)

upload_files_with_private_key-upload_files_example :
    wallet_result
      (upload_files_with_private_key key page_files (batch ∷ []) none (λ i. none) absent)
    ≡ some (upload_files (wallet_env key count) page_files (batch ∷ []) none (λ i. none) absent)
upload_files_with_private_key-upload_files_example =
    upload_files_with_private_key-upload_files key count key-IsHonest page_files (λ i. none)
      (batch ∷ []) none absent

upload_files_with_private_key-AllInOrder_example :
    AllInOrder count
      (upload_files_with_private_key key page_files (batch ∷ []) none (λ i. none) absent)
upload_files_with_private_key-AllInOrder_example =
    upload_files_with_private_key-AllInOrder key count key-IsHonest page_files (λ i. none)
      (batch ∷ []) none absent
