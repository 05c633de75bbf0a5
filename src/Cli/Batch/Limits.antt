-- ===== src/Cli/Batch/Limits.antt =====
-- cli/src/batch.ts, `packBatches`: the counters of each batch, and the two limits.
use evmfs.Prelude.{
  ℕ, ◌+◌, ◌≤◌, ◌≡◌, ◌≢◌, refl, ◌⊎◌, inl, inr, true, false, Option, List, [], ◌∷◌, ◌++◌, length, All,
  All-append, arith, Bool-cases,
}
use evmfs.Cli.Batch.{
  UploadUnit, Batch, Packing, base_tx_gas, batch_call_overhead, max_batch_bytes, estimate_file_gas,
  start, current, exceeds, overflows, push, is_empty, pack_step, finish, pack_from, pack_batches,
}

unfoldable pub bytes_of : List UploadUnit → ℕ
bytes_of [] = 0
bytes_of (u ∷ units) = length u.bytes + bytes_of units

unfoldable pub gas_of : List UploadUnit → ℕ
gas_of [] = 0
gas_of (u ∷ units) = estimate_file_gas (length u.bytes) + gas_of units

bytes_of-append : (xs ys : List UploadUnit) → bytes_of (xs ++ ys) ≡ bytes_of xs + bytes_of ys
unfolding bytes_of
bytes_of-append [] ys = omega arith
bytes_of-append (x ∷ xs) ys = omega (arith, bytes_of-append xs ys)

pub gas_of-append : (xs ys : List UploadUnit) → gas_of (xs ++ ys) ≡ gas_of xs + gas_of ys
unfolding gas_of
gas_of-append [] ys = omega arith
gas_of-append (x ∷ xs) ys = omega (arith, gas_of-append xs ys)

-- The counters of a batch are those of its units, and a batch of two or more units passes neither
-- limit.
pub record IsCounted (limit : Option ℕ) (b : Batch) : Type 0 where
  pub gas : b.estimated_gas ≡ base_tx_gas + batch_call_overhead + gas_of b.units
  pub bytes : b.byte_size ≡ bytes_of b.units
  pub fits :
      (length b.units ≤ 1)
      ⊎ ((exceeds b.estimated_gas limit ≡ false) × (b.byte_size ≤ max_batch_bytes))

pub record IsSound (limit : Option ℕ) (b : Batch) : Type 0 where
  pub nonempty : b.units ≢ []
  pub counted : IsCounted limit b

record IsPacking (limit : Option ℕ) (p : Packing) : Type 0 where
  closed : All (IsSound limit) p.batches
  open_one : IsCounted limit (current p)

is_empty-ne : (units : List UploadUnit) → is_empty units ≡ false → units ≢ []
is_empty-ne [] h e = cc
is_empty-ne (u ∷ units) h e = cc

bytes_of-snoc :
    (units : List UploadUnit) (u : UploadUnit)
    → bytes_of (units ++ u ∷ []) ≡ bytes_of units + length u.bytes
unfolding bytes_of
bytes_of-snoc units u = omega (arith, bytes_of-append units (u ∷ []))

gas_of-snoc :
    (units : List UploadUnit) (u : UploadUnit)
    → gas_of (units ++ u ∷ []) ≡ gas_of units + estimate_file_gas (length u.bytes)
unfolding gas_of
gas_of-snoc units u = omega (arith, gas_of-append units (u ∷ []))

-- A unit that fits, or that comes first, may be added.
push-IsCounted :
    (limit : Option ℕ) (p : Packing) (u : UploadUnit)
    → IsCounted limit (current p)
    → (is_empty p.current_units ≡ true) ⊎ (overflows limit p u ≡ false)
    → IsCounted limit (current (push p u))
push-IsCounted limit p u h fit = record {
  gas = omega (arith, gas_of-snoc p.current_units u, h.gas);
  bytes = omega (arith, bytes_of-snoc p.current_units u, h.bytes);
  fits = elim fit [
    | inl e ↦ inl (single p.current_units e)
    | inr o ↦ inr (ground arith, ground arith)
  ];
}
  where
    single : (units : List UploadUnit) → is_empty units ≡ true → length (units ++ u ∷ []) ≤ 1
    single [] e = omega arith
    single (v ∷ units) e = cc

start-IsCounted :
    (limit : Option ℕ) (batches : List Batch) → IsCounted limit (current (start batches))
unfolding gas_of bytes_of
start-IsCounted limit batches = record { gas = refl; bytes = refl; fits = inl (omega arith) }

close-All :
    (limit : Option ℕ) (p : Packing)
    → IsPacking limit p
    → is_empty p.current_units ≡ false
    → All (IsSound limit) (p.batches ++ current p ∷ [])
close-All limit p h e =
    All-append (IsSound limit) p.batches (current p ∷ []) h.closed
      (record { nonempty = is_empty-ne p.current_units e; counted = h.open_one }, tt)

pack_step-IsPacking :
    (limit : Option ℕ) (p : Packing) (u : UploadUnit)
    → IsPacking limit p
    → IsPacking limit (pack_step limit p u)
unfolding pack_step
pack_step-IsPacking limit p u h = elim (Bool-cases (is_empty p.current_units)) [
  | inl e ↦
      rw (e, pack_step)
        (record { closed = h.closed; open_one = push-IsCounted limit p u h.open_one (inl e) })
  | inr e ↦
      rw (e, pack_step)
        (elim (Bool-cases (overflows limit p u)) [
          | inl o ↦ rw o (record {
            closed = close-All limit p h e;
            open_one =
                push-IsCounted limit (start (p.batches ++ current p ∷ [])) u
                  (start-IsCounted limit (p.batches ++ current p ∷ [])) (inl refl);
          })
          | inr o ↦
              rw o (record {
                closed = h.closed;
                open_one = push-IsCounted limit p u h.open_one (inr o);
              })
        ])
]

pack_from-IsPacking :
    (limit : Option ℕ) (p : Packing) (units : List UploadUnit)
    → IsPacking limit p
    → IsPacking limit (pack_from limit p units)
unfolding pack_from
pack_from-IsPacking limit p [] h = h
pack_from-IsPacking limit p (u ∷ units) h =
    pack_from-IsPacking limit (pack_step limit p u) units (pack_step-IsPacking limit p u h)

finish-All : (limit : Option ℕ) (p : Packing) → IsPacking limit p → All (IsSound limit) (finish p)
unfolding finish
finish-All limit p h = elim (Bool-cases (is_empty p.current_units)) [
  | inl e ↦ rw e h.closed
  | inr e ↦ rw e (close-All limit p h e)
]

-- Every batch is non-empty, its counters are the base costs plus the sums over its units, and a
-- batch of two or more units passes neither the gas limit nor the limit of 100,000 bytes.
pub pack_batches-IsSound :
    (units : List UploadUnit) (limit : Option ℕ) → All (IsSound limit) (pack_batches units limit)
unfolding pack_batches
pack_batches-IsSound units limit = finish-All limit (pack_from limit (start []) units) (
    pack_from-IsPacking limit (start []) units
      (record { closed = tt; open_one = start-IsCounted limit [] }))
