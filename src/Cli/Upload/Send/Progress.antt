-- ===== src/Cli/Upload/Send/Progress.antt =====
-- cli/src/upload.ts: the loop over the batches, over a contract that logs what it stores.
use evmfs.Prelude.{
  ℕ, suc, ◌≡◌, ◌≢◌, refl, sym, ◌∙◌, ap, ◌⊎◌, inl, inr, List, [], ◌∷◌, ◌++◌, map, append_assoc,
  append-nil, some, Result, ok, err, All,
}
use evmfs.Prelude.Text.{Text}
use evmfs.Contract.{Call, events}
use evmfs.Cli.Batch.{Batch}
use evmfs.Cli.Batch.Order.{units_of}
use evmfs.Cli.Manifest.{ConfirmedChunk, UploadState, save_upload_state}
use evmfs.Cli.Upload.Send.{
  LogEntry, Reply, failed, receipt, World, batch_call, confirmed_by, record_receipt, send_batches,
}
use evmfs.Cli.Upload.Send.Receipts.{
  log_of, IsHonest, Distinct, Recorded, Recorded-append, recorded_at, confirmed_by-map,
  events-batch_call, Recorded-map,
}

pub Reply-cases :
    (r : Reply) → (r ≡ failed) ⊎ ((block : ℕ) × (logs : List LogEntry) × (r ≡ receipt block logs))
Reply-cases failed = inl refl
Reply-cases (receipt block logs) = inr (block, logs, refl)

module _ (keccak256 : List ℕ → Text) where
  -- From `w` to `w'` exactly the units of `done` were sent and recorded.
  pub record Progress (done : List Batch) (w w' : World) : Type 0 where
    pub added : List ConfirmedChunk
    pub recorded : Recorded keccak256 (units_of done) added
    pub state : w'.state ≡ record w.state { chunks = w.state.chunks ++ added }
    pub sent : w'.sent ≡ w.sent ++ map (λ b. batch_call b.units) done

  Progress-refl : (w : World) → Progress [] w w
  Progress-refl w = record {
    added = [];
    recorded = tt;
    state = λ i. record w.state { chunks = sym (append-nil w.state.chunks) i };
    sent = sym (append-nil w.sent);
  }

  -- A receipt with the contract's logs records the batch.
  Progress-record_receipt :
      (b : Batch) (block : ℕ) (logs : List LogEntry) (w : World)
      → Distinct keccak256 b.units
      → logs ≡ map (log_of keccak256) (events keccak256 (batch_call b.units))
      → Progress (b ∷ []) w (record_receipt keccak256 b block logs w)
  unfolding record_receipt
  Progress-record_receipt b block logs w distinct e =
      let same : confirmed_by keccak256 b.units block logs
          ≡ map (recorded_at keccak256 block) b.units =
        ap (confirmed_by keccak256 b.units block) (e ∙ events-batch_call keccak256 b.units)
        ∙ confirmed_by-map keccak256 b.units block b.units distinct (λ u i. i) in
      record {
        added = map (recorded_at keccak256 block) b.units;
        recorded = rw (append-nil b.units) (Recorded-map keccak256 block b.units);
        state = λ i. record w.state { chunks = w.state.chunks ++ same i };
        sent = refl;
      }

  Progress-cons :
      (b : Batch) (bs : List Batch) (w w1 w' : World)
      → Progress (b ∷ []) w w1
      → Progress bs w1 w'
      → Progress (b ∷ bs) w w'
  Progress-cons b bs w w1 w' p q = record {
    added = p.added ++ q.added;
    recorded =
        Recorded-append keccak256 b.units (units_of bs) p.added q.added
          (rw (append-nil b.units) at p.recorded) q.recorded;
    state =
        q.state
        ∙ ap (λ (s : UploadState). record s { chunks = s.chunks ++ q.added }) p.state
        ∙ (λ i. record w.state { chunks = append_assoc w.state.chunks p.added q.added i });
    sent =
        q.sent
        ∙ ap (λ t. t ++ map (λ b. batch_call b.units) bs) p.sent
        ∙ append_assoc w.sent (batch_call b.units ∷ []) (map (λ b. batch_call b.units) bs);
  }

  -- What the failure of a batch leaves: its call was made, the progress in memory stays, and the
  -- progress file holds it.
  pub record IsAbandoned (b : Batch) (w1 w' : World) : Type 0 where
    pub state : w'.state ≡ w1.state
    pub saved : w'.saved ≡ some (save_upload_state w1.state)
    pub sent : w'.sent ≡ w1.sent ++ batch_call b.units ∷ []

  -- How a run may end: all batches are recorded, or those before a failed one are.
  abbrev pub Ends : List Batch → World → Result World World → Type 0
  Ends batches w (ok w') = Progress batches w w'
  Ends batches w (err w') =
      (done : List Batch) × (b : Batch) × (rest : List Batch) × (batches ≡ done ++ b ∷ rest)
      × (w1 : World) × Progress done w w1
      × IsAbandoned b w1 w'

  Ends-cons :
      (b : Batch) (bs : List Batch) (w w1 : World) (r : Result World World)
      → Progress (b ∷ []) w w1
      → Ends bs w1 r
      → Ends (b ∷ bs) w r
  Ends-cons b bs w w1 (ok w') p e = Progress-cons b bs w w1 w' p e
  Ends-cons b bs w w1 (err w') p (done, c, rest, split, w2, q, same) =
      (b ∷ done, c, rest, ap (λ t. b ∷ t) split, w2, Progress-cons b done w w1 w2 p q, same)

  module _ (submit : ℕ → Call → Reply) (honest : IsHonest keccak256 submit) where
    -- If the contract logs what it stores and no batch holds two units with one hash, a run that ends
    -- has recorded every unit once, in order and with the hash of its data; a run that fails has so
    -- recorded the batches before the failed one, and has written that state to the progress file.
    pub send_batches-Ends :
        (i : ℕ) (batches : List Batch) (w : World)
        → All (λ b. Distinct keccak256 b.units) batches
        → Ends batches w (send_batches keccak256 submit i batches w)
    unfolding send_batches
    send_batches-Ends i [] w d = Progress-refl w
    send_batches-Ends i (b ∷ bs) w (d, ds) = elim (Reply-cases (submit i (batch_call b.units))) [
      | inl e ↦
          rw (e, send_batches)
            (
              [],
              b,
              bs,
              refl,
              w,
              Progress-refl w,
              record { state = refl; saved = refl; sent = refl },
            )
      | inr (block, logs, e) ↦
          rw (e, send_batches)
            (Ends-cons b bs w (record_receipt keccak256 b block logs w) _
              (Progress-record_receipt b block logs w d (honest.logged i _ block logs e))
              (send_batches-Ends (suc i) bs (record_receipt keccak256 b block logs w) ds))
    ]

  -- A run whose transactions all get receipts sends every batch.
  pub send_batches-ok :
      (submit : ℕ → Call → Reply) (i : ℕ) (batches : List Batch) (w : World)
      → ((j : ℕ) (call : Call) → submit j call ≢ failed)
      → (w' : World) × (send_batches keccak256 submit i batches w ≡ ok w')
  unfolding send_batches
  send_batches-ok submit i [] w h = (w, refl)
  send_batches-ok submit i (b ∷ bs) w h = elim (Reply-cases (submit i (batch_call b.units))) [
    | inl e ↦ absurd (h i (batch_call b.units) e)
    | inr (block, logs, e) ↦
        rw (e, send_batches)
          (send_batches-ok submit (suc i) bs (record_receipt keccak256 b block logs w) h)
  ]
