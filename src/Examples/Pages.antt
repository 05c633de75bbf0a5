-- ===== src/Examples/Pages.antt =====
-- Uploads from the page: a contract whose first transaction fails, and two files.
use evmfs.Prelude.{
  ℕ, zero, suc, ◌+◌, ◌≡◌, refl, sym, inl, inr, false, some, List, [], ◌∷◌, map, All, arith,
}
use evmfs.Prelude.Text.{Text, codes}
use evmfs.Contract.{Call, events}
use evmfs.Web.Units.{FileEntry, Batch, whole, read_unit, batches_of_units}
use evmfs.Web.Units.Packed.{all_units, IsFull, batches_of_units-IsFull}
use evmfs.Web.Progress.{SavedProgress, absent, save_progress, load_progress}
use evmfs.Web.Progress.Saved.{load_progress-save_progress}
use evmfs.Web.Upload.{PageLog, PageReply, failed, mined, PageEnv, Page}
use evmfs.Web.Upload.Retries.{IsMinedWithin, upload_loop-ok}
use evmfs.Web.ConfirmedMap.Has.{AllIn}
use evmfs.Web.Upload.Confirmed.{page_log, IsHonestPage, upload_loop-AllIn}
use evmfs.Examples.World.{hash, zip}
use evmfs.Examples.Uploads.{chunk_a}

abbrev pub address : Text
address = codes "0x140cbDFf649929D003091a5B8B3be34588753aBA"

abbrev logs : Call → List PageLog
logs call = map (λ e. record { address = address; topic = some e.content_hash }) (events hash call)

abbrev submit : ℕ → Call → PageReply
submit zero call = failed
submit (suc n) call = mined (n + 7) 50000 (logs call)

abbrev pub env : PageEnv
env = record {
  keccak256 = hash;
  gzip_text = zip;
  submit = submit;
  clock = λ n. 1700000000000 + n;
  storage_throws = false;
  contract_address = address;
  chain_id = 1;
  gateway_url = codes "https://evmfs.xyz";
}

abbrev pub page_files : List FileEntry
page_files =
    record { index = 0; name = codes "a"; file = zip (1 ∷ []) }
    ∷ record { index = 1; name = codes "b"; file = zip (2 ∷ []) }
    ∷ []

abbrev pub batch : Batch
batch = record { units = map whole page_files; estimated_gas = 41156; byte_size = 6 }

abbrev pub idle : Page
idle = record { confirmed = []; gas_used = 0; storage = absent; sent = [] }

mined_within : (n : ℕ) (call : Call) → IsMinedWithin env page_files 3 n call
mined_within zero call =
    inr (inl (record { block = 7; gas = 50000; logs = logs call; answer = refl }))
mined_within (suc n) call =
    inl (record { block = n + 7; gas = 50000; logs = logs call; answer = refl })

logs_of : {b c g h : ℕ} {ls ms : List PageLog} → mined b g ls ≡ mined c h ms → ls ≡ ms
logs_of e = cc

pub env-IsHonestPage : IsHonestPage env
env-IsHonestPage = record { logged = logged; hashed = λ bytes e. cc }
  where
    logged :
        (n : ℕ) (call : Call) (block gas : ℕ) (ls : List PageLog)
        → submit n call ≡ mined block gas ls
        → ls ≡ map (page_log env) (events hash call)
    logged zero call block gas ls e = cc
    logged (suc n) call block gas ls e = sym (logs_of e)

abbrev done : Page
done = (upload_loop-ok env page_files (batch ∷ []) idle mined_within).0

upload_loop-AllIn_example : All (λ b. AllIn done.confirmed b.units) (batch ∷ [])
unfolding whole read_unit
upload_loop-AllIn_example =
    upload_loop-AllIn env env-IsHonestPage page_files (batch ∷ []) idle done
      ((((λ e. cc), tt), (tt, tt)), tt)
      (upload_loop-ok env page_files (batch ∷ []) idle mined_within).1

batches_of_units-IsFull_example :
    (all_units (batches_of_units batch.units 40000) ≡ batch.units)
    × All (IsFull 40000) (batches_of_units batch.units 40000)
batches_of_units-IsFull_example = batches_of_units-IsFull 40000 batch.units

abbrev progress : SavedProgress
progress = record {
  file_names = codes "a" ∷ codes "b" ∷ [];
  chain_id = 1;
  contract_address = address;
  confirmed = chunk_a ∷ [];
  gas_used = 50000;
  saved_at = 1700000000000;
}

load_progress-save_progress_example :
    (load_progress 1700086400000 (save_progress false progress absent)).0 ≡ some progress
load_progress-save_progress_example =
    load_progress-save_progress progress absent 1700086400000 (omega arith)
