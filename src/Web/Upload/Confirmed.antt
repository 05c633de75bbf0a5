-- ===== src/Web/Upload/Confirmed.antt =====
-- web/src/lib/evmfs.ts, `uploadFiles`: what the receipts confirm.
use evmfs.Prelude.{
  ℕ, zero, suc, ◌≡◌, ◌≢◌, refl, sym, ◌∙◌, ap, subst, inl, inr, true, none, some, List, [], ◌∷◌, map,
  length, All, ok, Bool-cases, Option-cases, Result-cases,
}
use evmfs.Prelude.Text.{Text, text_eq_refl, text_eq_ne, to_lower, truthy}
use evmfs.Prelude.Member.{In}
use evmfs.Contract.{Call, StoreEvent, events}
use evmfs.Web.Units.{FileEntry, UploadUnit, Batch, read_unit}
use evmfs.Web.ConfirmedMap.{
  ConfirmedMap, compute_confirmed_key, has_unit, confirmed_unit, all_confirmed,
}
use evmfs.Web.Upload.{
  PageLog, mined, PageEnv, Page, call_of, own_topic, unit_of_hash, confirm_log, confirm_logs,
  record_mined, attempt_batch, upload_batch, upload_loop, batch_retries, sending,
}
use evmfs.Web.ConfirmedMap.Has.{
  AllIn, Extends, has_unit-set_unit, set_unit-Extends, AllIn-Extends, all_confirmed-AllIn,
}
use evmfs.Web.Upload.Cases.{attempt_batch-cases}

module _ (env : PageEnv) where
  -- The log of an event of the contract.
  abbrev pub page_log : StoreEvent → PageLog
  page_log e = record { address = env.contract_address; topic = some e.content_hash }

  -- Every mined receipt has the logs of the contract's events for its call, and no hash is empty.
  pub record IsHonestPage : Type 0 where
    pub logged :
        (n : ℕ) (call : Call) (block gas : ℕ) (logs : List PageLog)
        → env.submit n call ≡ mined block gas logs
        → logs ≡ map page_log (events env.keccak256 call)
    pub hashed : (bytes : List ℕ) → env.keccak256 bytes ≢ []

  -- No two units of the list have bytes with one hash.
  abbrev pub HasDistinctHashes : List UploadUnit → Type 0
  HasDistinctHashes [] = Unit
  HasDistinctHashes (u ∷ units) =
      All (λ v. env.keccak256 (read_unit u) ≢ env.keccak256 (read_unit v)) units
      × HasDistinctHashes units

  unknown_hash :
      (units : List UploadUnit) (hash : Text)
      → All (λ x. hash ≢ env.keccak256 (read_unit x)) units
      → unit_of_hash env units hash ≡ none
  unfolding unit_of_hash
  unknown_hash [] hash h = refl
  unknown_hash (x ∷ units) hash (ne, h) =
      rw (unknown_hash units hash h, unit_of_hash)
        (rw (text_eq_ne (env.keccak256 (read_unit x)) hash (λ e. ne (sym e))))

  unit_of_hash-In :
      (units : List UploadUnit) (u : UploadUnit)
      → HasDistinctHashes units
      → In u units
      → unit_of_hash env units (env.keccak256 (read_unit u)) ≡ some u
  unfolding unit_of_hash
  unit_of_hash-In [] u d i = absurd i
  unit_of_hash-In (v ∷ units) u (new, d) (inr i) = rw (unit_of_hash-In units u d i, unit_of_hash)
  unit_of_hash-In (v ∷ units) u (new, d) (inl same) =
      subst (λ x. unit_of_hash env (v ∷ units) (env.keccak256 (read_unit x)) ≡ some x) same
        (rw (unknown_hash units (env.keccak256 (read_unit v)) new, unit_of_hash)
          (rw (text_eq_refl (env.keccak256 (read_unit v)))))

  abbrev pub unit_log : UploadUnit → PageLog
  unit_log u = record { address = env.contract_address; topic = some (env.keccak256 (read_unit u)) }

  pub events-call_of :
      (units : List UploadUnit)
      → map page_log (events env.keccak256 (call_of units)) ≡ map unit_log units
  unfolding call_of events
  events-call_of [] = refl
  events-call_of (u ∷ []) = refl
  events-call_of (u ∷ v ∷ units) = ap (λ t. unit_log u ∷ unit_log v ∷ t) (later units)
    where
      later :
          (us : List UploadUnit)
          → map page_log
              (map (λ b. record { content_hash = env.keccak256 b; bytes = b }) (map read_unit us))
            ≡ map unit_log us
      later [] = refl
      later (x ∷ us) = ap (λ t. unit_log x ∷ t) (later us)

  confirm_log-Extends :
      (units : List UploadUnit) (block : ℕ) (log : PageLog) (m : ConfirmedMap)
      → Extends m (confirm_log env units block log m)
  unfolding confirm_log
  confirm_log-Extends units block log m j h = elim (Option-cases (own_topic env log)) [
    | inl e ↦ rw (e, confirm_log) h
    | inr (hash, e) ↦ elim (Option-cases (unit_of_hash env units hash)) [
      | inl n ↦ rw (e, n, confirm_log) h
      | inr (u, s) ↦
          rw (e, s, confirm_log)
            (set_unit-Extends (compute_confirmed_key u) (confirmed_unit hash block u) m j h)
    ]
  ]

  confirm_logs-Extends :
      (units : List UploadUnit) (block : ℕ) (logs : List PageLog) (m : ConfirmedMap)
      → Extends m (confirm_logs env units block logs m)
  unfolding confirm_logs
  confirm_logs-Extends units block [] m j h = h
  confirm_logs-Extends units block (log ∷ logs) m j h =
      confirm_logs-Extends units block logs (confirm_log env units block log m) j
        (confirm_log-Extends units block log m j h)

  module _ (honest : IsHonestPage) where
    pub own_topic-page_log :
        (bytes : List ℕ)
        → own_topic env (page_log (record { content_hash = env.keccak256 bytes; bytes = bytes }))
          ≡ some (env.keccak256 bytes)
    unfolding own_topic
    own_topic-page_log bytes =
        let named : truthy (some (env.keccak256 bytes)) ≡ true =
          truthy_ne (env.keccak256 bytes) (honest.hashed bytes) in
        rw (text_eq_refl (to_lower env.contract_address), named)
      where
        truthy_ne : (t : Text) → t ≢ [] → truthy (some t) ≡ true
        truthy_ne [] h = absurd (h refl)
        truthy_ne (c ∷ t) h = refl

    pub own_topic-unit_log :
        (u : UploadUnit) → own_topic env (unit_log u) ≡ some (env.keccak256 (read_unit u))
    own_topic-unit_log u = own_topic-page_log (read_unit u)

    confirm_log-unit_log :
        (units : List UploadUnit) (block : ℕ) (u : UploadUnit) (m : ConfirmedMap)
        → HasDistinctHashes units
        → In u units
        → has_unit (compute_confirmed_key u) (confirm_log env units block (unit_log u) m) ≡ true
    unfolding confirm_log
    confirm_log-unit_log units block u m d i =
        rw (own_topic-unit_log u, unit_of_hash-In units u d i, confirm_log)
          (has_unit-set_unit (compute_confirmed_key u)
            (confirmed_unit (env.keccak256 (read_unit u)) block u) m)

    -- The logs of a part of the units confirm that part.
    confirm_logs-AllIn :
        (units : List UploadUnit) (block : ℕ) (part : List UploadUnit) (m : ConfirmedMap)
        → HasDistinctHashes units
        → ((u : UploadUnit) → In u part → In u units)
        → AllIn (confirm_logs env units block (map unit_log part) m) part
    unfolding confirm_logs
    confirm_logs-AllIn units block [] m d within = tt
    confirm_logs-AllIn units block (u ∷ part) m d within =
        let next = confirm_log env units block (unit_log u) m in
        (
          confirm_logs-Extends units block (map unit_log part) next (compute_confirmed_key u)
              (confirm_log-unit_log units block u m d (within u (inl refl))),
          confirm_logs-AllIn units block part next d (λ v i. within v (inr i)),
        )

    module _ (files : List FileEntry) where
      -- A page that has the units, and whatever the first page had.
      record HasConfirmed (units : List UploadUnit) (page done : Page) : Type 0 where
        extends : Extends page.confirmed done.confirmed
        all_in : AllIn done.confirmed units

      attempt_batch-HasConfirmed :
          (units : List UploadUnit) (left : ℕ) (page done : Page)
          → HasDistinctHashes units
          → attempt_batch env files units left page ≡ ok done
          → HasConfirmed units page done
      unfolding attempt_batch record_mined
      attempt_batch-HasConfirmed units zero page done d h = cc
      attempt_batch-HasConfirmed units (suc left) page done d h =
          elim (attempt_batch-cases env files units left page) [
            | inl again ↦
                let next = sending env page (call_of units) in
                let r = attempt_batch-HasConfirmed units left next done d (sym again ∙ h) in
                record { extends = r.extends; all_in = r.all_in }
            | inr now ↦
                let same : map unit_log units ≡ now.logs = sym (
                  honest.logged (length page.sent) (call_of units) now.block now.gas now.logs
                    now.answer
                  ∙ events-call_of units) in
                let result = record_mined env files units now.block now.gas now.logs page in
                let e : result ≡ done = let g = sym now.result ∙ h in cc in
                subst (HasConfirmed units page) e (record {
                  extends = confirm_logs-Extends units now.block now.logs page.confirmed;
                  all_in =
                      subst (λ l. AllIn (confirm_logs env units now.block l page.confirmed) units)
                        same (confirm_logs-AllIn units now.block units page.confirmed d (λ u i. i));
                })
          ]

      upload_batch-HasConfirmed :
          (batch : Batch) (page done : Page)
          → HasDistinctHashes batch.units
          → upload_batch env files batch page ≡ ok done
          → HasConfirmed batch.units page done
      unfolding upload_batch
      upload_batch-HasConfirmed batch page done d h =
          elim (Bool-cases (all_confirmed page.confirmed batch.units)) [
            | inl e ↦
                let h' = rw e at h in
                let same : page ≡ done = cc in
                subst (HasConfirmed batch.units page) same (record {
                  extends = λ j x. x;
                  all_in = all_confirmed-AllIn page.confirmed batch.units e;
                })
            | inr e ↦ attempt_batch-HasConfirmed batch.units batch_retries page done d (rw e at h)
          ]

      upload_loop-Extends :
          (batches : List Batch) (page done : Page)
          → All (λ b. HasDistinctHashes b.units) batches
          → upload_loop env files batches page ≡ ok done
          → Extends page.confirmed done.confirmed × All (λ b. AllIn done.confirmed b.units) batches
      unfolding upload_loop
      upload_loop-Extends [] page done d h =
          let same : page ≡ done = cc in
          (subst (λ (p : Page). Extends page.confirmed p.confirmed) same (λ j x. x), tt)
      upload_loop-Extends (batch ∷ batches) page done (first, d) h =
          elim (Result-cases (upload_batch env files batch page)) [
            | inr (stopped, e) ↦ let h' = rw (e, upload_loop) at h in cc
            | inl (next, e) ↦
                let one = upload_batch-HasConfirmed batch page next first e in
                let (x, later) =
                  upload_loop-Extends batches next done d (rw (e, upload_loop) at h) in
                (
                  λ j k. x j (one.extends j k),
                  (AllIn-Extends next.confirmed done.confirmed batch.units x one.all_in, later),
                )
          ]

      -- Let the contract log what it stores and no batch hold two units with one hash. If the loop
      -- ends without an error, every unit of every batch is confirmed, however often it was tried and
      -- whatever was confirmed before.
      pub upload_loop-AllIn :
          (batches : List Batch) (page done : Page)
          → All (λ b. HasDistinctHashes b.units) batches
          → upload_loop env files batches page ≡ ok done
          → All (λ b. AllIn done.confirmed b.units) batches
      upload_loop-AllIn batches page done d h = (upload_loop-Extends batches page done d h).1
