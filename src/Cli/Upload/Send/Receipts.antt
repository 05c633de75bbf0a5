-- ===== src/Cli/Upload/Send/Receipts.antt =====
-- cli/src/upload.ts: what one receipt of an honest contract confirms.
use evmfs.Prelude.{
  ℕ, ◌≡◌, ◌≢◌, refl, sym, ap, subst, inl, inr, none, some, List, [], ◌∷◌, ◌++◌, map, All,
}
use evmfs.Prelude.Text.{Text, text_eq_refl, text_eq_ne}
use evmfs.Prelude.Member.{In}
use evmfs.Contract.{Call, StoreEvent, events}
use evmfs.Cli.Batch.{UploadUnit}
use evmfs.Cli.Manifest.{ConfirmedChunk}
use evmfs.Cli.Upload.Send.{
  LogEntry, store_log, Reply, receipt, batch_call, confirm, hash_to_unit, confirmed_by,
}

module _ (keccak256 : List ℕ → Text) where
  abbrev pub log_of : StoreEvent → LogEntry
  log_of e = store_log e.content_hash

  -- Every receipt has the logs of the contract's events for its call.
  pub record IsHonest (submit : ℕ → Call → Reply) : Type 0 where
    pub logged :
        (i : ℕ) (call : Call) (block : ℕ) (logs : List LogEntry)
        → submit i call ≡ receipt block logs
        → logs ≡ map log_of (events keccak256 call)

  -- No two units have data with one hash.
  abbrev pub Distinct : List UploadUnit → Type 0
  Distinct [] = Unit
  Distinct (u ∷ units) = All (λ v. keccak256 u.bytes ≢ keccak256 v.bytes) units × Distinct units

  -- The chunk records the unit: its place, and the hash of its data.
  pub record IsRecorded (u : UploadUnit) (c : ConfirmedChunk) : Type 0 where
    pub file_index : c.file_index ≡ u.file_index
    pub chunk_index : c.chunk_index ≡ u.chunk_index
    pub total_chunks : c.total_chunks ≡ u.total_chunks
    pub hash : c.hash ≡ keccak256 u.bytes

  -- The chunks record the units, one each and in order.
  abbrev pub Recorded : List UploadUnit → List ConfirmedChunk → Type 0
  Recorded [] [] = Unit
  Recorded [] (_ ∷ _) = ⊥
  Recorded (_ ∷ _) [] = ⊥
  Recorded (u ∷ units) (c ∷ chunks) = IsRecorded u c × Recorded units chunks

  pub Recorded-append :
      (us vs : List UploadUnit) (cs ds : List ConfirmedChunk)
      → Recorded us cs
      → Recorded vs ds
      → Recorded (us ++ vs) (cs ++ ds)
  Recorded-append [] vs [] ds h k = k
  Recorded-append [] vs (c ∷ cs) ds h k = absurd h
  Recorded-append (u ∷ us) vs [] ds h k = absurd h
  Recorded-append (u ∷ us) vs (c ∷ cs) ds (r, h) k = (r, Recorded-append us vs cs ds h k)

  hash_to_unit_of_In :
      (units : List UploadUnit) (u : UploadUnit)
      → Distinct units
      → In u units
      → hash_to_unit keccak256 units (keccak256 u.bytes) ≡ some u
  unfolding hash_to_unit
  hash_to_unit_of_In [] u d i = absurd i
  hash_to_unit_of_In (v ∷ units) u (new, d) (inr i) =
      rw (hash_to_unit_of_In units u d i, hash_to_unit)
  hash_to_unit_of_In (v ∷ units) u (new, d) (inl same) =
      subst (λ x. hash_to_unit keccak256 (v ∷ units) (keccak256 x.bytes) ≡ some x) same
        (rw (unknown units (keccak256 v.bytes) new, hash_to_unit)
          (rw (text_eq_refl (keccak256 v.bytes))))
    where
      unknown :
          (units : List UploadUnit) (hash : Text)
          → All (λ x. hash ≢ keccak256 x.bytes) units
          → hash_to_unit keccak256 units hash ≡ none
      unknown [] hash h = refl
      unknown (x ∷ units) hash (ne, h) =
          rw (unknown units hash h, hash_to_unit)
            (rw (text_eq_ne (keccak256 x.bytes) hash (λ e. ne (sym e))))

  abbrev pub unit_log : UploadUnit → LogEntry
  unit_log u = store_log (keccak256 u.bytes)

  abbrev pub recorded_at : ℕ → UploadUnit → ConfirmedChunk
  recorded_at block u = confirm (keccak256 u.bytes) block u

  pub confirmed_by-map :
      (units : List UploadUnit) (block : ℕ) (part : List UploadUnit)
      → Distinct units
      → ((u : UploadUnit) → In u part → In u units)
      → confirmed_by keccak256 units block (map unit_log part) ≡ map (recorded_at block) part
  unfolding confirmed_by
  confirmed_by-map units block [] d h = refl
  confirmed_by-map units block (u ∷ part) d h =
      rw (hash_to_unit_of_In units u d (h u (inl refl)), confirmed_by)
        (ap (λ t. recorded_at block u ∷ t)
          (confirmed_by-map units block part d (λ v i. h v (inr i))))

  pub events-batch_call :
      (units : List UploadUnit)
      → map log_of (events keccak256 (batch_call units)) ≡ map unit_log units
  unfolding batch_call events
  events-batch_call [] = refl
  events-batch_call (u ∷ []) = refl
  events-batch_call (u ∷ v ∷ units) = ap (λ t. unit_log u ∷ unit_log v ∷ t) (more units)
    where
      more :
          (units : List UploadUnit)
          → map log_of (
              map
                (λ b. record { content_hash = keccak256 b; bytes = b })
                (map (λ x. x.bytes) units))
            ≡ map unit_log units
      more [] = refl
      more (x ∷ units) = ap (λ t. unit_log x ∷ t) (more units)

  pub Recorded-map :
      (block : ℕ) (units : List UploadUnit) → Recorded units (map (recorded_at block) units)
  Recorded-map block [] = tt
  Recorded-map block (u ∷ units) = (
    record { file_index = refl; chunk_index = refl; total_chunks = refl; hash = refl },
    Recorded-map block units,
  )
