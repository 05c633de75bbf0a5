-- ===== src/Examples/Batches.antt =====
-- Packing and cutting at concrete units and files.
use evmfs.Prelude.{◌≡◌, refl, none, some, List, [], ◌∷◌, All, length}
use evmfs.Prelude.Text.{codes}
use evmfs.Cli.Batch.{UploadUnit, pack_batches, pack_step}
use evmfs.Cli.Batch.Order.{units_of, units_of-pack_batches}
use evmfs.Cli.Batch.Limits.{IsSound, pack_batches-IsSound}

abbrev two_units : List UploadUnit
two_units =
    record { file_index = 0; chunk_index = 0; total_chunks = 1; name = codes "a"; bytes = 1 ∷ [] }
    ∷ record { file_index = 1; chunk_index = 0; total_chunks = 1; name = codes "b"; bytes = 2 ∷ [] }
    ∷ []

-- With a limit of 33,000 gas each unit is a transaction of its own.
two_batches : length (pack_batches two_units (some 33000)) ≡ 2
unfolding pack_batches pack_step
two_batches = refl

-- With no limit that is a number they share one.
one_batch : length (pack_batches two_units none) ≡ 1
unfolding pack_batches pack_step
one_batch = refl

units_of-pack_batches_example : units_of (pack_batches two_units (some 33000)) ≡ two_units
units_of-pack_batches_example = units_of-pack_batches two_units (some 33000)

pack_batches-IsSound_example : All (IsSound (some 33000)) (pack_batches two_units (some 33000))
pack_batches-IsSound_example = pack_batches-IsSound two_units (some 33000)
