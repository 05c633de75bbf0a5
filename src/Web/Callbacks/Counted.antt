-- ===== src/Web/Callbacks/Counted.antt =====
-- web/src/lib/evmfs.ts, `uploadFiles`: how often it calls `onFileHashed`.
use evmfs.Prelude.{
  ℕ, zero, suc, ◌+◌, ◌≡◌, refl, ◌∙◌, inl, inr, Option, some, List, [], ◌∷◌, ◌++◌, map, length,
  length-append, ok, Bool-cases, Option-cases, Result-cases, arith,
}
use evmfs.Prelude.Text.{Text, text_eq_refl}
use evmfs.Prelude.Member.{In}
use evmfs.Web.Units.{FileEntry, UploadUnit, Batch, read_unit}
use evmfs.Web.Units.Packed.{all_units}
use evmfs.Web.ConfirmedMap.{ConfirmedMap, all_confirmed}
use evmfs.Web.Upload.{
  PageEnv, Page, call_of, unit_of_hash, sending, attempt_batch, upload_batch, upload_loop,
  batch_retries,
}
use evmfs.Web.Upload.Cases.{PageReply-cases}
use evmfs.Web.Upload.Confirmed.{IsHonestPage, unit_log, events-call_of, own_topic-unit_log}
use evmfs.Web.Callbacks.{
  Callback, file_hashed, batch_confirmed, sent_callbacks, skipped_callbacks, log_callbacks,
  attempt_callbacks, batch_callbacks, loop_callbacks,
}

-- How many of the calls are of `onFileHashed`.
abbrev pub is_hashed : Callback → ℕ
is_hashed (file_hashed name hash) = 1
is_hashed _ = 0

abbrev pub hashed_count : List Callback → ℕ
hashed_count [] = 0
hashed_count (c ∷ calls) = is_hashed c + hashed_count calls

pub hashed_count-append :
    (xs ys : List Callback) → hashed_count (xs ++ ys) ≡ hashed_count xs + hashed_count ys
hashed_count-append [] ys = omega arith
hashed_count-append (x ∷ xs) ys = omega (arith, hashed_count-append xs ys)

hashed_count-skipped :
    (i : ℕ) (units : List UploadUnit) (m : ConfirmedMap)
    → hashed_count (skipped_callbacks i units m) ≡ length units
hashed_count-skipped i [] m = refl
hashed_count-skipped i (u ∷ units) m = omega (arith, hashed_count-skipped i units m)

module _ (env : PageEnv) (tx_hash : ℕ → Option Text) (honest : IsHonestPage env) where
  hashed_count-sent : (i n : ℕ) → hashed_count (sent_callbacks env tx_hash i n) ≡ 0
  unfolding sent_callbacks
  hashed_count-sent i n = elim (Option-cases (tx_hash n)) [
    | inl e ↦ rw (e, sent_callbacks) refl
    | inr (hash, e) ↦ rw (e, sent_callbacks) refl
  ]

  -- The hash of a unit leads to a unit, its own or a later one.
  known_hash :
      (units : List UploadUnit) (u : UploadUnit)
      → In u units
      → (v : UploadUnit) × (unit_of_hash env units (env.keccak256 (read_unit u)) ≡ some v)
  unfolding unit_of_hash
  known_hash [] u i = absurd i
  known_hash (x ∷ units) u i =
      elim (Option-cases (unit_of_hash env units (env.keccak256 (read_unit u)))) [
        | inr (v, e) ↦ (v, rw (e, unit_of_hash) refl)
        | inl n ↦ elim i [
          | inr later ↦ let (v, e) = known_hash units u later in absurd cc
          | inl same ↦
              (x, rw (n, ← same, text_eq_refl (env.keccak256 (read_unit x)), unit_of_hash) refl)
        ]
      ]

  hashed_count-logs :
      (units part : List UploadUnit)
      → ((u : UploadUnit) → In u part → In u units)
      → hashed_count (log_callbacks env units (map (unit_log env) part)) ≡ length part
  unfolding log_callbacks
  hashed_count-logs units [] within = refl
  hashed_count-logs units (u ∷ part) within =
      let (v, e) = known_hash units u (within u (inl refl)) in
      rw (own_topic-unit_log env honest u, e, log_callbacks)
        (omega (arith, hashed_count-logs units part (λ x i. within x (inr i))))

  -- A batch that goes through has every unit hashed once, after however many attempts.
  hashed_count-attempt :
      (files : List FileEntry) (i : ℕ) (units : List UploadUnit) (left : ℕ) (page done : Page)
      → attempt_batch env files units left page ≡ ok done
      → hashed_count (attempt_callbacks env tx_hash i units left page) ≡ length units
  unfolding attempt_batch attempt_callbacks
  hashed_count-attempt files i units zero page done h = cc
  hashed_count-attempt files i units (suc left) page done h =
      let n = length page.sent in
      let next = sending env page (call_of units) in
      let sent = sent_callbacks env tx_hash i n in
      let again = attempt_callbacks env tx_hash i units left next in
      elim (PageReply-cases (env.submit n (call_of units))) [
        | inl e ↦
            let h' = rw (e, attempt_batch) at h in
            rw (e, attempt_callbacks)
              (hashed_count-append sent again
                ∙ omega (
                  arith,
                  hashed_count-sent i n,
                  hashed_count-attempt files i units left next done h',
                ))
        | inr (inl e) ↦
            let h' = rw (e, attempt_batch) at h in
            rw (e, attempt_callbacks)
              (hashed_count-append sent again
                ∙ omega (
                  arith,
                  hashed_count-sent i n,
                  hashed_count-attempt files i units left next done h',
                ))
        | inr (inr (block, gas, logs, e)) ↦
            let same =
              honest.logged n (call_of units) block gas logs e ∙ events-call_of env units in
            let found = hashed_count-logs units units (λ u k. k) in
            let last = batch_confirmed i gas ∷ log_callbacks env units logs in
            let counted : hashed_count last ≡ length units = rw same (omega (arith, found)) in
            rw (e, attempt_callbacks)
              (hashed_count-append sent last ∙ omega (arith, hashed_count-sent i n, counted))
      ]

  hashed_count-batch :
      (files : List FileEntry) (i total : ℕ) (batch : Batch) (page done : Page)
      → upload_batch env files batch page ≡ ok done
      → hashed_count (batch_callbacks env tx_hash i total batch page) ≡ length batch.units
  unfolding upload_batch batch_callbacks
  hashed_count-batch files i total batch page done h =
      elim (Bool-cases (all_confirmed page.confirmed batch.units)) [
        | inl e ↦ rw (e, batch_callbacks) (hashed_count-skipped i batch.units page.confirmed)
        | inr e ↦
            rw (e, batch_callbacks)
              (omega (
                arith,
                hashed_count-attempt files i batch.units batch_retries page done (rw e at h),
              ))
      ]

  pub hashed_count-loop :
      (files : List FileEntry) (i total : ℕ) (batches : List Batch) (page done : Page)
      → upload_loop env files batches page ≡ ok done
      → hashed_count (loop_callbacks env tx_hash files i total batches page)
        ≡ length (all_units batches)
  unfolding upload_loop loop_callbacks
  hashed_count-loop files i total [] page done h = refl
  hashed_count-loop files i total (batch ∷ batches) page done h =
      elim (Result-cases (upload_batch env files batch page)) [
        | inr (stopped, e) ↦ let h' = rw (e, upload_loop) at h in cc
        | inl (next, e) ↦
            let first = batch_callbacks env tx_hash i total batch page in
            let rest = loop_callbacks env tx_hash files (suc i) total batches next in
            let one = hashed_count-batch files i total batch page next e in
            let more =
              hashed_count-loop files (suc i) total batches next done (rw (e, upload_loop) at h) in
            rw (e, loop_callbacks)
              (hashed_count-append first rest
                ∙ omega (arith, one, more, length-append batch.units (all_units batches)))
      ]
