-- ===== src/Examples/World.antt =====
-- A small world: a hash that keeps its input, a contract that logs what it stores, and two files.
use evmfs.Prelude.{ℕ, ◌+◌, ◌≡◌, sym, true, none, some, List, [], ◌∷◌, map, ok}
use evmfs.Prelude.Text.{Text, codes}
use evmfs.Contract.{Call, events}
use evmfs.Cli.Batch.{FileEntry, expand_files_to_units, expand_file, whole_file}
use evmfs.Cli.Upload.Send.{LogEntry, Reply, failed, receipt}
use evmfs.Cli.Upload.Send.Receipts.{log_of, IsHonest, Distinct}
use evmfs.Cli.Upload.Command.{UploadOptions, Env}
use evmfs.Cli.Manifest.{UploadState}

-- It has no collisions.
abbrev pub hash : List ℕ → Text
hash bytes = b'h' ∷ bytes

abbrev pub zip : List ℕ → List ℕ
zip content = 0x1f ∷ 0x8b ∷ content

abbrev pub submit : ℕ → Call → Reply
submit i call = receipt (i + 7) (map (log_of hash) (events hash call))

-- Every transaction fails.
abbrev pub refuse : ℕ → Call → Reply
refuse i call = failed

abbrev pub env : Env
env = record {
  keccak256 = hash;
  gzip = zip;
  gzip_text = zip;
  submit = submit;
  register = λ addr manifest block. ok true;
  answer = codes "Y";
}

abbrev pub broken : Env
broken = record env { submit = refuse }

abbrev pub options : UploadOptions
options = record {
  folder = codes "site";
  chain_id = codes "1";
  contract = some (codes "0x140cbDFf649929D003091a5B8B3be34588753aBA");
  gas_limit = codes "25000000";
  gateway = codes "https://evmfs.xyz";
  block_index = none;
  no_block_index = true;
}

abbrev pub first : FileEntry
first = record { index = 0; filename = codes "a"; compressed = zip (1 ∷ []) }

abbrev pub second : FileEntry
second = record { index = 1; filename = codes "b"; compressed = zip (2 ∷ []) }

abbrev pub files : List FileEntry
files = first ∷ second ∷ []

abbrev pub nothing : UploadState
nothing = record {
  folder = codes "site";
  contract_address = codes "0x140cbDFf649929D003091a5B8B3be34588753aBA";
  chain_id = codes "1";
  chunks = [];
  manifest_hash = none;
}

logs_of : {b c : ℕ} {ls ms : List LogEntry} → receipt b ls ≡ receipt c ms → ls ≡ ms
logs_of e = cc

pub submit-IsHonest : IsHonest hash submit
submit-IsHonest = record { logged = λ i call block logs e. sym (logs_of e) }

pub refuse-IsHonest : IsHonest hash refuse
refuse-IsHonest = record { logged = λ i call block logs e. cc }

pub files-Distinct : Distinct hash (expand_files_to_units files)
unfolding expand_files_to_units expand_file whole_file
files-Distinct = (((λ e. cc), tt), (tt, tt))
