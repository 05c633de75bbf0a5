-- ===== src/Examples/Sessions.antt =====
-- The upload page with a wallet, and a folder with two files of one name.
use evmfs.Prelude.{
  ℕ, ◌+◌, ◌*◌, ◌≡◌, ◌↔◌, refl, true, false, Option, none, some, [], ◌∷◌, length, ok, Result, err,
}
use evmfs.Prelude.Text.{Text, codes, text_leb, to_lower}
use evmfs.Prelude.Sort.{sort, sum_by, insert}
use evmfs.Web.Units.{whole, read_unit}
use evmfs.Web.Units.Packed.{all_units}
use evmfs.Web.Progress.{absent}
use evmfs.Prelude.Digits.{decimal}
use evmfs.Contract.{events}
use evmfs.Cli.Upload.Resume.{chunk_key}
use evmfs.Cli.Upload.Assemble.{file_chunks}
use evmfs.Web.ConfirmedMap.{has_unit, set_unit}
use evmfs.Web.Manifest.{build_manifest_entries}
use evmfs.Web.Upload.{call_of, confirm_log, PageError, Uploaded, upload_files}
use evmfs.Web.Files.{
  PickedFile, ProcessedFiles, calculate_fee, fee_per_byte, process_files, handle_site, name_le,
  path_le,
}
use evmfs.Web.Files.Totals.{large_weight, process_files-counts}
use evmfs.Web.Files.Labels.{Labelled, contents, handle_site-Labelled_iff}
use evmfs.Web.UiState.{idle_state}
use evmfs.Web.App.{
  Session, page_upload, start_upload, chosen_upload, fee_thrown, pays_fee, confirmed_before,
}
use evmfs.Web.App.Ends.{Shows, start_upload-Shows, start_upload-completed_files}
use evmfs.Examples.Pages.{env, env-IsHonestPage, page_files, batch, idle}

abbrev tx_hash : ℕ → Option Text
tx_hash n = some (codes "0x01")

abbrev message : PageError → Text
message e = codes "Upload failed"

abbrev no_names : ℕ → Option Text
no_names i = none

abbrev picked : ProcessedFiles
picked = record {
  files = page_files;
  units = batch.units;
  batches = batch ∷ [];
  total_gas = 241156;
  total_original_size = 6;
  total_units = 2;
  chunked_file_count = 0;
}

abbrev session : Session
session = record {
  key_mode = false;
  has_key = false;
  is_connected = true;
  has_wallet = true;
  has_account = true;
  has_public_client = true;
  pay = λ fee. none;
  key_upload = λ saved names. record { callbacks = []; thrown = none };
  wallet_upload =
      λ saved names. page_upload env tx_hash message page_files (batch ∷ []) saved names absent;
}

chosen :
    chosen_upload session none no_names
    ≡ page_upload env tx_hash message page_files (batch ∷ []) none no_names absent
unfolding chosen_upload
chosen = refl

paid : fee_thrown session picked none ≡ none
unfolding fee_thrown pays_fee
paid = refl

start_upload-Shows_example :
    Shows env tx_hash message page_files no_names
      (batch ∷ [])
      none
      absent
      session
      (upload_files env page_files (batch ∷ []) none no_names absent)
      (start_upload session (some picked) none no_names idle_state)
start_upload-Shows_example =
    start_upload-Shows env tx_hash message page_files no_names (batch ∷ []) none absent session
      picked chosen paid idle_state

abbrev got : Result PageError Uploaded → Uploaded
got (ok out) = out
got (err e) = record {
  manifest_hash = [];
  base_uri = [];
  confirmed = [];
  page = idle;
  registration = none;
}

abbrev out : Uploaded
out = got (upload_files env page_files (batch ∷ []) none no_names absent)

completes : upload_files env page_files (batch ∷ []) none no_names absent ≡ ok out
unfolding upload_files has_unit build_manifest_entries file_chunks sort events call_of confirm_log
    to_lower read_unit whole set_unit chunk_key decimal
completes = refl

start_upload-completed_files_example :
    (start_upload session (some picked) none no_names idle_state).completed_files
    ≡ confirmed_before none + length (all_units (batch ∷ []))
start_upload-completed_files_example =
    start_upload-completed_files env tx_hash message page_files no_names (batch ∷ []) none absent
      session picked chosen paid env-IsHonestPage out idle_state completes

abbrev index_of_a : PickedFile
index_of_a = record {
  name = codes "index.html";
  content = 1 ∷ [];
  relative_path = codes "a/index.html";
}

abbrev style_of_b : PickedFile
style_of_b = record { name = codes "z.css"; content = 2 ∷ []; relative_path = codes "b/z.css" }

abbrev style_of_a : PickedFile
style_of_a = record { name = codes "z.css"; content = 3 ∷ []; relative_path = codes "a/z.css" }

abbrev index_of_b : PickedFile
index_of_b = record {
  name = codes "index.html";
  content = 4 ∷ [];
  relative_path = codes "b/index.html";
}

process_files-counts_example :
    let p = process_files text_leb (style_of_b ∷ index_of_a ∷ []) in
    (p.chunked_file_count ≡ sum_by large_weight (style_of_b ∷ index_of_a ∷ []))
    × (calculate_fee p.total_original_size
        ≡ fee_per_byte * sum_by (λ f. length f.content) (style_of_b ∷ index_of_a ∷ []))
process_files-counts_example = process_files-counts text_leb (style_of_b ∷ index_of_a ∷ [])

handle_site-Labelled_iff_example :
    let (labels, processed) = handle_site text_leb (style_of_b ∷ index_of_a ∷ []) in
    let sorted = sort (path_le text_leb) (style_of_b ∷ index_of_a ∷ []) in
    Labelled labels sorted processed.files
    ↔ (contents (sort (name_le text_leb) sorted) ≡ contents sorted)
handle_site-Labelled_iff_example = handle_site-Labelled_iff text_leb (style_of_b ∷ index_of_a ∷ [])

-- Under index 1 the page uploads "b/index.html" and names it "a/z.css".
swapped : ¬ (
    let sorted = sort (path_le text_leb) (style_of_a ∷ index_of_b ∷ index_of_a ∷ []) in
    contents (sort (name_le text_leb) sorted) ≡ contents sorted)
unfolding sort insert
swapped e = cc
