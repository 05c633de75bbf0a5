-- ===== src/Web/KeyUpload/SameAsWallet.antt =====
-- web/src/lib/evmfs.ts, `uploadFilesWithPrivateKey` and `uploadFiles`: the whole runs.
use evmfs.Prelude.{
  ℕ, suc, ◌≡◌, refl, inl, inr, Option, none, some, List, [], ◌∷◌, ◌++◌, length, length-append,
  Result, ok, err, Result-cases, arith,
}
use evmfs.Prelude.Text.{Text}
use evmfs.Contract.{store_manifest}
use evmfs.Cli.Manifest.{manifest_json}
use evmfs.Web.Units.{FileEntry, Batch}
use evmfs.Web.Progress.{SavedProgress, Stored}
use evmfs.Web.ConfirmedMap.{unit_values}
use evmfs.Web.Manifest.{build_manifest_entries}
use evmfs.Web.Upload.{
  PageError, Uploaded, page_registration, uploaded_with, upload_manifest_with, upload_files,
}
use evmfs.Web.KeyUpload.{
  KeyLog, key_mined, KeyEnv, KeyPage, KeyError, no_nonce, upload_failed, KeyUploaded,
  key_uploaded_with, key_upload_loop, key_upload_manifest, key_upload_from, key_start,
  upload_files_with_private_key,
}
use evmfs.Web.KeyUpload.Honest.{
  plain_logs, wallet_env, counts, IsHonest, key_manifest_hash-page_manifest_hash,
}
use evmfs.Web.KeyUpload.Attempts.{KeyReply-cases, IsNumbered, sent_next, key_upload_loop-Agrees}

-- What an upload with a key comes to, seen as an upload with a wallet; nothing if it never began.
abbrev pub wallet_result : Result KeyError KeyUploaded → Option (Result PageError Uploaded)
wallet_result (err no_nonce) = none
wallet_result (err (upload_failed e)) = some (err e)
wallet_result (ok out) = some (ok out.uploaded)

-- The transactions carry the counts of their positions, and the registration would carry the next.
abbrev pub IsInOrder : (ℕ → ℕ) → KeyUploaded → Type 0
IsInOrder count out =
    (out.nonces ≡ counts count (length out.uploaded.page.sent))
    × (out.registration_nonce ≡ count (length out.uploaded.page.sent))

abbrev pub AllInOrder : (ℕ → ℕ) → Result KeyError KeyUploaded → Type 0
AllInOrder count (ok out) = IsInOrder count out
AllInOrder count (err e) = Unit

module _ (key : KeyEnv) (count : ℕ → ℕ) where
  -- The run from a page beside that of a wallet.
  abbrev Matches : Result PageError KeyUploaded → Result PageError Uploaded → Type 0
  Matches (ok out) r = (r ≡ ok out.uploaded) × IsInOrder count out
  Matches (err e) r = r ≡ err e

  module _ (honest : IsHonest key count) (files : List FileEntry)
      (filenames : ℕ → Option Text) where
    key_uploaded_with-Matches :
        (s : KeyPage) (json : List ℕ) (block gas : ℕ) (logs : List KeyLog)
        → IsNumbered key count s
        → key.sign (length s.page.sent) (count (length s.page.sent)) (store_manifest json)
          ≡ key_mined block gas logs
        → Matches (ok (key_uploaded_with key s (store_manifest json) block gas logs)) (
            ok (
              uploaded_with
                (wallet_env key count)
                s.page
                (store_manifest json)
                block
                gas
                (plain_logs logs)))
    unfolding key_uploaded_with uploaded_with page_registration
    key_uploaded_with-Matches s json block gas logs h e =
        let call = store_manifest json in
        let reads = honest.reads_stores (length s.page.sent) call block gas logs e in
        let raised = honest.mined_counts (length s.page.sent) call block gas logs e in
        let one : length (s.page.sent ++ call ∷ []) ≡ suc (length s.page.sent) =
          omega (arith, length-append s.page.sent (call ∷ [])) in
        (
          rw (key_manifest_hash-page_manifest_hash key count [] logs reads) refl,
          (sent_next key count s call h, rw (one, raised, h.1) refl),
        )

    key_upload_manifest-Matches :
        (s : KeyPage)
        → IsNumbered key count s
        → Matches
            (key_upload_manifest key files filenames s)
            (upload_manifest_with (wallet_env key count) files filenames s.page)
    unfolding key_upload_manifest upload_manifest_with
    key_upload_manifest-Matches s h =
        elim (Result-cases
          (build_manifest_entries (length files) (unit_values s.page.confirmed) filenames)) [
            | inr (i, e) ↦ rw (e, key_upload_manifest, upload_manifest_with) refl
            | inl (entries, e) ↦
                let json = key.shared.gzip_text (manifest_json entries) in
                let n = length s.page.sent in
                elim (KeyReply-cases (key.sign n (count n) (store_manifest json))) [
                  | inl (inl f) ↦ rw (e, h.1, f, key_upload_manifest, upload_manifest_with) refl
                  | inl (inr f) ↦ rw (e, h.1, f, key_upload_manifest, upload_manifest_with) refl
                  | inr (block, gas, logs, f) ↦
                      rw (e, h.1, f, key_upload_manifest, upload_manifest_with)
                        (key_uploaded_with-Matches s json block gas logs h f)
                ]
          ]

    module _ (batches : List Batch) (saved : Option SavedProgress) (storage : Stored) where
      key_upload_from-Matches :
          Matches
            (key_upload_from key files batches filenames (key_start key saved storage (count 0)))
            (upload_files (wallet_env key count) files batches saved filenames storage)
      unfolding key_upload_from upload_files
      key_upload_from-Matches =
          let s = key_start key saved storage (count 0) in
          let both = key_upload_loop-Agrees key count honest files batches s (refl, refl) in
          elim (Result-cases (key_upload_loop key files batches s)) [
            | inr (stopped, e) ↦
                let (same, order) = rw e at both in rw (e, same, key_upload_from, upload_files) refl
            | inl (done, e) ↦
                let (same, numbered) = rw e at both in
                rw (e, same, key_upload_from, upload_files)
                  (key_upload_manifest-Matches done numbered)
          ]

      -- With a node that tells the account's count, which every mined transaction raises by one, and
      -- whose receipts hold `Store` events of the contract only, an upload with a private key comes
      -- to what an upload with a wallet comes to: the same confirmed units, manifest, saved progress
      -- and calls in the same order, or the same error.
      pub upload_files_with_private_key-upload_files :
          wallet_result (upload_files_with_private_key key files batches saved filenames storage)
          ≡ some (upload_files (wallet_env key count) files batches saved filenames storage)
      unfolding upload_files_with_private_key
      upload_files_with_private_key-upload_files =
          let s = key_start key saved storage (count 0) in
          let both = key_upload_from-Matches in
          elim (Result-cases (key_upload_from key files batches filenames s)) [
            | inl (out, e) ↦
                let h = rw e at both in
                rw (honest.tells_count 0, e, h.0, upload_files_with_private_key) refl
            | inr (x, e) ↦
                let h = rw e at both in
                rw (honest.tells_count 0, e, h, upload_files_with_private_key) refl
          ]

      -- With such a node every transaction of an upload that completes carries the account's count
      -- at the time it is sent, after whatever failures, and the nonce of the registration is the
      -- count after the manifest.
      pub upload_files_with_private_key-AllInOrder :
          AllInOrder count (upload_files_with_private_key key files batches saved filenames storage)
      unfolding upload_files_with_private_key
      upload_files_with_private_key-AllInOrder =
          let s = key_start key saved storage (count 0) in
          let both = key_upload_from-Matches in
          elim (Result-cases (key_upload_from key files batches filenames s)) [
            | inl (out, e) ↦
                let h = rw e at both in
                rw (honest.tells_count 0, e, upload_files_with_private_key) h.1
            | inr (x, e) ↦ rw (honest.tells_count 0, e, upload_files_with_private_key) tt
          ]
