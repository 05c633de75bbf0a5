-- ===== src/Web/Units/Packed.antt =====
-- web/src/lib/evmfs.ts, `packBatches`: order and limits of the batches.
use evmfs.Prelude.{
  ℕ, ◌+◌, ◌≤◌, ◌≡◌, ◌≢◌, refl, sym, ◌∙◌, ap, ◌⊎◌, inl, inr, true, false, List, [], ◌∷◌, ◌++◌,
  append_assoc, append-nil, concat, concat-append, subst, map, map-append, length, All, All-append,
  arith, Bool-cases,
}
use evmfs.Web.Units.{
  UploadUnit, Batch, Loading, base_tx_gas, batch_call_overhead, estimate_file_gas, emptied, loaded,
  has_none, exceeds_limit, load, load_step, load_from, closing, batches_of_units,
}

unfoldable pub byte_sum : List UploadUnit → ℕ
byte_sum [] = 0
byte_sum (u ∷ units) = u.byte_length + byte_sum units

unfoldable pub gas_sum_of : List UploadUnit → ℕ
gas_sum_of [] = 0
gas_sum_of (u ∷ units) = estimate_file_gas u.byte_length + gas_sum_of units

byte_sum-snoc :
    (units : List UploadUnit) (u : UploadUnit)
    → byte_sum (units ++ u ∷ []) ≡ byte_sum units + u.byte_length
unfolding byte_sum
byte_sum-snoc [] u = omega arith
byte_sum-snoc (v ∷ units) u = omega (arith, byte_sum-snoc units u)

gas_sum_of-snoc :
    (units : List UploadUnit) (u : UploadUnit)
    → gas_sum_of (units ++ u ∷ []) ≡ gas_sum_of units + estimate_file_gas u.byte_length
unfolding gas_sum_of
gas_sum_of-snoc [] u = omega arith
gas_sum_of-snoc (v ∷ units) u = omega (arith, gas_sum_of-snoc units u)

-- The counters are those of the units, and two or more units pass neither limit.
pub record IsWithin (gas_limit : ℕ) (b : Batch) : Type 0 where
  pub gas : b.estimated_gas ≡ base_tx_gas + batch_call_overhead + gas_sum_of b.units
  pub bytes : b.byte_size ≡ byte_sum b.units
  pub fits : (length b.units ≤ 1) ⊎ ((b.estimated_gas ≤ gas_limit) × (b.byte_size ≤ 100000))

pub record IsFull (gas_limit : ℕ) (b : Batch) : Type 0 where
  pub nonempty : b.units ≢ []
  pub within : IsWithin gas_limit b

abbrev pub all_units : List Batch → List UploadUnit
all_units batches = concat (map (λ b. b.units) batches)

-- After the units `done`: they stand in the batches and the open one, in order.
record Holds (gas_limit : ℕ) (done : List UploadUnit) (p : Loading) : Type 0 where
  order : all_units p.batches ++ p.current_units ≡ done
  closed : All (IsFull gas_limit) p.batches
  open_one : IsWithin gas_limit (loaded p)

has_none-nil : (units : List UploadUnit) → has_none units ≡ true → units ≡ []
has_none-nil [] h = refl
has_none-nil (u ∷ units) h = cc

has_none-ne : (units : List UploadUnit) → has_none units ≡ false → units ≢ []
has_none-ne [] h e = cc
has_none-ne (u ∷ units) h e = cc

all_units-close :
    (p : Loading) → all_units (p.batches ++ loaded p ∷ []) ≡ all_units p.batches ++ p.current_units
all_units-close p =
    ap concat (map-append (λ (b : Batch). b.units) p.batches (loaded p ∷ []))
    ∙ concat-append (map (λ (b : Batch). b.units) p.batches) (p.current_units ∷ [])
    ∙ ap (λ t. all_units p.batches ++ t) (append-nil p.current_units)

module _ (gas_limit : ℕ) where
  Holds-emptied :
      (done : List UploadUnit) (batches : List Batch)
      → all_units batches ≡ done
      → All (IsFull gas_limit) batches
      → Holds gas_limit done (emptied batches)
  unfolding byte_sum gas_sum_of
  Holds-emptied done batches e h = record {
    order = append-nil (all_units batches) ∙ e;
    closed = h;
    open_one = record { gas = refl; bytes = refl; fits = inl (omega arith) };
  }

  -- A batch with units can be closed.
  Holds-close :
      (done : List UploadUnit) (p : Loading)
      → Holds gas_limit done p
      → has_none p.current_units ≡ false
      → (all_units (p.batches ++ loaded p ∷ []) ≡ done)
        × All (IsFull gas_limit) (p.batches ++ loaded p ∷ [])
  Holds-close done p h e = (
    all_units-close p ∙ h.order,
    All-append (IsFull gas_limit) p.batches (loaded p ∷ []) h.closed
        (record { nonempty = has_none-ne p.current_units e; within = h.open_one }, tt),
  )

  first_of_batch :
      (units : List UploadUnit) (u : UploadUnit)
      → has_none units ≡ true
      → length (units ++ u ∷ []) ≤ 1
  first_of_batch [] u e = omega arith
  first_of_batch (v ∷ units) u e = cc

  Holds-load :
      (done : List UploadUnit) (p : Loading) (u : UploadUnit)
      → Holds gas_limit done p
      → (has_none p.current_units ≡ true) ⊎ (exceeds_limit gas_limit p u ≡ false)
      → Holds gas_limit (done ++ u ∷ []) (load p u)
  Holds-load done p u h room = record {
    order =
        sym (append_assoc (all_units p.batches) p.current_units (u ∷ []))
        ∙ ap (λ t. t ++ u ∷ []) h.order;
    closed = h.closed;
    open_one =
        let w = h.open_one in
        record {
          gas = omega (arith, gas_sum_of-snoc p.current_units u, w.gas);
          bytes = omega (arith, byte_sum-snoc p.current_units u, w.bytes);
          fits = elim room [
            | inl e ↦ inl (first_of_batch p.current_units u e)
            | inr o ↦ inr (ground arith, ground arith)
          ];
        };
  }

  Holds-load_step :
      (done : List UploadUnit) (p : Loading) (u : UploadUnit)
      → Holds gas_limit done p
      → Holds gas_limit (done ++ u ∷ []) (load_step gas_limit p u)
  unfolding load_step
  Holds-load_step done p u h = elim (Bool-cases (has_none p.current_units)) [
    | inl e ↦ rw (e, load_step) (Holds-load done p u h (inl e))
    | inr e ↦
        let (order, full) = Holds-close done p h e in
        rw (e, load_step)
          (elim (Bool-cases (exceeds_limit gas_limit p u)) [
            | inl o ↦
                let closed = p.batches ++ loaded p ∷ [] in
                rw o (
                  Holds-load done (emptied closed) u (Holds-emptied done closed order full)
                    (inl refl))
            | inr o ↦ rw o (Holds-load done p u h (inr o))
          ])
  ]

  Holds-load_from :
      (done units : List UploadUnit) (p : Loading)
      → Holds gas_limit done p
      → Holds gas_limit (done ++ units) (load_from gas_limit p units)
  unfolding load_from
  Holds-load_from done [] p h = rw (append-nil done) h
  Holds-load_from done (u ∷ units) p h =
      subst (λ t. Holds gas_limit t (load_from gas_limit (load_step gas_limit p u) units))
        (append_assoc done (u ∷ []) units)
        (Holds-load_from (done ++ u ∷ []) units (load_step gas_limit p u)
          (Holds-load_step done p u h))

  -- The page's batches hold the given units in order; every one is non-empty, its counters are those
  -- of its units, and with two or more units it passes neither the gas limit nor 100,000 bytes.
  pub batches_of_units-IsFull :
      (units : List UploadUnit)
      → (all_units (batches_of_units units gas_limit) ≡ units)
        × All (IsFull gas_limit) (batches_of_units units gas_limit)
  unfolding batches_of_units closing
  batches_of_units-IsFull units =
      let p = load_from gas_limit (emptied []) units in
      let h = Holds-load_from [] units (emptied []) (Holds-emptied [] [] refl tt) in
      elim (Bool-cases (has_none p.current_units)) [
        | inl e ↦
            rw (e, closing)
              (
                sym (append-nil (all_units p.batches))
                    ∙ ap (λ t. all_units p.batches ++ t) (sym (has_none-nil p.current_units e))
                    ∙ h.order,
                h.closed,
              )
        | inr e ↦ rw (e, closing) (Holds-close units p h e)
      ]
