-- ===== src/Web/ConfirmedMap.antt =====
-- web/src/lib/evmfs.ts, `uploadFiles`: the map of the confirmed units.
pub mod OnePlace
pub mod Has
use evmfs.Prelude.{ℕ, Bool, true, false, ◌&&◌, List, [], ◌∷◌, map, if◌then◌else◌}
use evmfs.Prelude.Text.{Text, text_eq}
use evmfs.Cli.Upload.Resume.{chunk_key}
use evmfs.Web.Units.{UploadUnit}
use evmfs.Web.Progress.{ConfirmedUnit}

abbrev pub ConfirmedMap : Type 0
ConfirmedMap = List (Text × ConfirmedUnit)

-- `computeConfirmedKey`, on a confirmed unit and on a unit
abbrev pub key_of_confirmed : ConfirmedUnit → Text
key_of_confirmed c = chunk_key c.file_index c.chunk_index

abbrev pub compute_confirmed_key : UploadUnit → Text
compute_confirmed_key u = chunk_key u.file_index u.chunk_index

-- `confirmed.set(key, c)`, `confirmed.has(key)` and `confirmed.values()`
unfoldable pub set_unit : Text → ConfirmedUnit → ConfirmedMap → ConfirmedMap
set_unit key c [] = (key, c) ∷ []
set_unit key c ((k, d) ∷ m) =
    let later = set_unit key c m in if text_eq k key then (k, c) ∷ m else (k, d) ∷ later

unfoldable pub has_unit : Text → ConfirmedMap → Bool
has_unit key [] = false
has_unit key ((k, d) ∷ m) = let later = has_unit key m in if text_eq k key then true else later

abbrev pub unit_values : ConfirmedMap → List ConfirmedUnit
unit_values m = map (λ (e : Text × ConfirmedUnit). e.1) m

-- The units of the saved progress, set one after another.
unfoldable pub confirmed_from : ConfirmedMap → List ConfirmedUnit → ConfirmedMap
confirmed_from m [] = m
confirmed_from m (c ∷ saved) = confirmed_from (set_unit (key_of_confirmed c) c m) saved

abbrev pub confirmed_unit : Text → ℕ → UploadUnit → ConfirmedUnit
confirmed_unit hash block u = record {
  file_index = u.file_index;
  chunk_index = u.chunk_index;
  total_chunks = u.total_chunks;
  hash = hash;
  block = block;
}

-- `batch.units.every((u) => confirmed.has(computeConfirmedKey(u)))`
unfoldable pub all_confirmed : ConfirmedMap → List UploadUnit → Bool
all_confirmed m [] = true
all_confirmed m (u ∷ units) = has_unit (compute_confirmed_key u) m && all_confirmed m units
