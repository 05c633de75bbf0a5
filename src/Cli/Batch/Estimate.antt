-- ===== src/Cli/Batch/Estimate.antt =====
-- cli/src/batch.ts: the printed total of `estimateTotalGas` against the batches' own estimates.
use evmfs.Prelude.{ℕ, ◌+◌, ◌*◌, ◌≡◌, refl, ap, Option, List, [], ◌∷◌, length, All, arith}
use evmfs.Cli.Batch.{
  UploadUnit, Batch, base_tx_gas, batch_call_overhead, estimate_file_gas, total_from,
  estimate_total_gas, pack_batches,
}
use evmfs.Cli.Batch.Order.{units_of, units_of-pack_batches}
use evmfs.Cli.Batch.Limits.{IsSound, gas_of, gas_of-append, pack_batches-IsSound}

pub gas_sum : List Batch → ℕ
gas_sum [] = 0
gas_sum (b ∷ batches) = b.estimated_gas + gas_sum batches

total_from-eq-add :
    (total : ℕ) (units : List UploadUnit) → total_from total units ≡ total + gas_of units
unfolding total_from gas_of
total_from-eq-add total [] = omega arith
total_from-eq-add total (u ∷ units) =
    omega (arith, total_from-eq-add (total + estimate_file_gas (length u.bytes)) units)

gas_sum-eq-add :
    (limit : Option ℕ) (batches : List Batch)
    → All (IsSound limit) batches
    → gas_sum batches
      ≡ gas_of (units_of batches) + length batches * (base_tx_gas + batch_call_overhead)
unfolding gas_sum gas_of
gas_sum-eq-add limit [] h = refl
gas_sum-eq-add limit (b ∷ batches) (s, h) =
    omega (
      arith,
      gas_sum-eq-add limit batches h,
      gas_of-append b.units (units_of batches),
      s.counted.gas,
    )

-- The batches' estimates add up to the printed total and the base cost of every transaction, with
-- the call overhead counted for every transaction and not once.
pub gas_sum-pack_batches :
    (units : List UploadUnit) (limit : Option ℕ)
    → gas_sum (pack_batches units limit) + batch_call_overhead
      ≡ estimate_total_gas units
        + length (pack_batches units limit) * (base_tx_gas + batch_call_overhead)
unfolding estimate_total_gas
gas_sum-pack_batches units limit = omega (
  arith,
  gas_sum-eq-add limit (pack_batches units limit) (pack_batches-IsSound units limit),
  total_from-eq-add 0 units,
  ap gas_of (units_of-pack_batches units limit),
)
