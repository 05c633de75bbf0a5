-- ===== src/Examples/Uploads.antt =====
-- Uploads of two files: one that completes, one that fails and is resumed.
use evmfs.Prelude.{
  ℕ, ◌≡◌, ◌≢◌, ◌↔◌, inl, inr, refl, subst, arith, true, none, some, List, [], ◌∷◌, map, ok,
}
use evmfs.Prelude.Text.{codes, to_lower}
use evmfs.Prelude.Member.{In}
use evmfs.Prelude.Digits.{leading_digits, value}
use evmfs.Prelude.ParseInt.{parse_int}
use evmfs.Contract.{Call}
use evmfs.Cli.Batch.{
  UploadUnit, Batch, expand_files_to_units, expand_file, whole_file, pack_batches, pack_step,
}
use evmfs.Cli.Manifest.{ConfirmedChunk, ManifestEntry, UploadState, load_upload_state}
use evmfs.Cli.Upload.Resume.{discard_stale, remaining_units}
use evmfs.Cli.Upload.Resume.Partition.{IsFor, IsCurrent, discard_stale_iff}
use evmfs.Cli.Upload.Send.{failed, World, send_batches}
use evmfs.Cli.Upload.Send.Receipts.{IsRecorded}
use evmfs.Cli.Upload.Send.Progress.{Ends, send_batches-Ends}
use evmfs.Cli.Upload.Assemble.{assemble}
use evmfs.Cli.Upload.Assemble.Complete.{IsFaithful, IsComplete}
use evmfs.Cli.Upload.Assemble.Entries.{Lists, assemble-Lists}
use evmfs.Cli.Upload.Command.{batch_error, upload_from}
use evmfs.Cli.Upload.Command.Run.{IsCompleted, batches_from, upload_from-IsCompleted}
use evmfs.Cli.Upload.Command.Failure.{KeepsProgress, upload_from-KeepsProgress}
use evmfs.Cli.Upload.Command.Resumption.{later, resume_after_failure}
use evmfs.Examples.World.{
  hash, zip, submit, env, broken, options, first, second, files, nothing, submit-IsHonest,
  refuse-IsHonest, files-Distinct,
}

nothing-IsFaithful : IsFaithful hash (expand_files_to_units files) nothing.chunks
nothing-IsFaithful = record { recorded = λ c i. absurd i; unique = tt }

answered : (i : ℕ) (call : Call) → submit i call ≢ failed
answered i call e = cc

upload_from-IsCompleted_example :
    IsCompleted env options true files
      (batches_from env options true files nothing)
      (upload_from env options true files none nothing)
unfolding to_lower
upload_from-IsCompleted_example =
    upload_from-IsCompleted env options true files submit-IsHonest answered none nothing
      (refl, (refl, tt)) nothing-IsFaithful refl files-Distinct refl

upload_from-KeepsProgress_example :
    KeepsProgress broken options true files
      (discard_stale (expand_files_to_units files) nothing)
      (upload_from broken options true files none nothing)
upload_from-KeepsProgress_example =
    upload_from-KeepsProgress broken options true files refuse-IsHonest (refl, (refl, tt))
      files-Distinct none nothing nothing-IsFaithful

broken_fails : (upload_from broken options true files none nothing).exit ≡ batch_error
unfolding upload_from remaining_units expand_files_to_units expand_file discard_stale to_lower
    send_batches pack_batches pack_step parse_int leading_digits value whole_file
broken_fails = refl

resume_after_failure_example :
    (state : UploadState) × (load_upload_state
        (upload_from broken options true files none nothing).world.saved
      ≡ some state)
    × IsCompleted
        (later broken submit (codes "y"))
        options
        true
        files
        (batches_from broken options true files state)
        (upload_from
          (later broken submit (codes "y"))
          options
          true
          files
          (upload_from broken options true files none nothing).world.saved
          state)
unfolding to_lower
resume_after_failure_example =
    resume_after_failure broken options true files none nothing submit (codes "y") refuse-IsHonest
      (refl, (refl, tt)) files-Distinct nothing-IsFaithful refl broken_fails submit-IsHonest
      answered refl

abbrev unit_a : UploadUnit
unit_a = record {
  file_index = 0;
  chunk_index = 0;
  total_chunks = 1;
  name = codes "a";
  bytes = 1 ∷ [];
}

abbrev unit_b : UploadUnit
unit_b = record {
  file_index = 1;
  chunk_index = 0;
  total_chunks = 1;
  name = codes "b";
  bytes = 2 ∷ [];
}

abbrev batch_ab : Batch
batch_ab = record { units = unit_a ∷ unit_b ∷ []; estimated_gas = 34548; byte_size = 2 }

abbrev idle : World
idle = record { state = nothing; saved = none; sent = [] }

send_batches-Ends_example :
    Ends hash (batch_ab ∷ []) idle (send_batches hash submit 0 (batch_ab ∷ []) idle)
send_batches-Ends_example =
    send_batches-Ends hash submit submit-IsHonest 0 (batch_ab ∷ []) idle
      ((((λ e. cc), tt), (tt, tt)), tt)

abbrev pub chunk_a : ConfirmedChunk
chunk_a = record {
  file_index = 0;
  chunk_index = 0;
  total_chunks = 1;
  hash = hash (zip (1 ∷ []));
  block = 9;
}

abbrev chunk_b : ConfirmedChunk
chunk_b = record {
  file_index = 1;
  chunk_index = 0;
  total_chunks = 1;
  hash = hash (zip (2 ∷ []));
  block = 8;
}

abbrev halfway : UploadState
halfway = record nothing { chunks = chunk_b ∷ [] }

discard_stale_iff_example : In chunk_b (discard_stale (unit_a ∷ unit_b ∷ []) halfway).chunks ↔ (
    In chunk_b halfway.chunks
    × ((u : UploadUnit) × In u (unit_a ∷ unit_b ∷ []) × IsCurrent chunk_b u))
discard_stale_iff_example = discard_stale_iff (unit_a ∷ unit_b ∷ []) halfway chunk_b

files-IsFaithful : IsFaithful hash (expand_files_to_units files) (chunk_b ∷ chunk_a ∷ [])
unfolding expand_files_to_units expand_file whole_file
files-IsFaithful = record {
  recorded = λ c i. elim i [
    | inl b ↦
        (whole_file second, inr (inl refl), subst (IsRecorded hash (whole_file second)) b is_b)
    | inr j ↦ elim j [
      | inl a ↦ (whole_file first, inl refl, subst (IsRecorded hash (whole_file first)) a is_a)
      | inr k ↦ absurd k
    ]
  ];
  unique = (((λ e. absurd (omega arith)), tt), (tt, tt));
}
  where
    is_a : IsRecorded hash (whole_file first) chunk_a
    is_a = record { file_index = refl; chunk_index = refl; total_chunks = refl; hash = refl }

    is_b : IsRecorded hash (whole_file second) chunk_b
    is_b = record { file_index = refl; chunk_index = refl; total_chunks = refl; hash = refl }

files-IsComplete : IsComplete hash (expand_files_to_units files) (chunk_b ∷ chunk_a ∷ [])
unfolding expand_files_to_units expand_file whole_file
files-IsComplete u i = elim i [
  | inl a ↦ (
    chunk_a,
    inr (inl refl),
    subst (λ v. IsFor v chunk_a) a (record { file_index = refl; chunk_index = refl }),
  )
  | inr j ↦ elim j [
    | inl b ↦ (
      chunk_b,
      inl refl,
      subst (λ v. IsFor v chunk_b) b (record { file_index = refl; chunk_index = refl }),
    )
    | inr k ↦ absurd k
  ]
]

assemble-Lists_example :
    (entries : List ManifestEntry) × (assemble
        (map (λ f. f.filename) files)
        (expand_files_to_units files)
        (chunk_b ∷ chunk_a ∷ [])
      ≡ ok entries)
    × Lists hash files entries
assemble-Lists_example =
    assemble-Lists hash files (chunk_b ∷ chunk_a ∷ []) (refl, (refl, tt)) files-IsFaithful
      files-IsComplete
