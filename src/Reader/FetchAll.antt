-- ===== src/Reader/FetchAll.antt =====
-- lib/src/index.ts, `fetchAll`: the pool of workers, as the steps that the event loop can take.
pub mod Invariant
pub mod Schedules
use evmfs.Prelude.{
  ℕ, suc, ◌<◌, ◌≡◌, min, Option, none, some, List, [], ◌∷◌, ◌++◌, length, ok, if◌then◌else◌,
}
use evmfs.Prelude.Text.{Text, text_eq}
use evmfs.Prelude.Digits.{decimal}
use evmfs.Reader.Evmfs.{ManifestEntry, Evmfs, fetch_entry}

-- An element of `work`.
pub record Item : Type 0 where
  pub key : Text
  pub entry : ManifestEntry

-- `e.f ?? String(i)`
unfoldable pub key_of : ℕ → Option Text → Text
key_of i none = decimal i
key_of i (some f) = f

-- `entries.map((e, i) => …)` from index `i`
unfoldable pub work_from : ℕ → List ManifestEntry → List Item
unfolding key_of
work_from i [] = []
work_from i (entry ∷ entries) =
    record { key = key_of i entry.f; entry = entry } ∷ work_from (suc i) entries

-- `result.set(key, bytes)` and `result.get(key)`
unfoldable pub set_result : Text → List ℕ → List (Text × List ℕ) → List (Text × List ℕ)
set_result key bytes [] = (key, bytes) ∷ []
set_result key bytes ((k, old) ∷ rest) =
    let later = set_result key bytes rest in
    if text_eq k key then (k, bytes) ∷ rest else (k, old) ∷ later

unfoldable pub get_result : Text → List (Text × List ℕ) → Option (List ℕ)
get_result key [] = none
get_result key ((k, bytes) ∷ rest) =
    let later = get_result key rest in if text_eq k key then some bytes else later

-- `waiting` is `work` from `idx` on; `running` are the items that the workers await.
pub record Pool : Type 0 where
  pub waiting : List Item
  pub running : List Item
  pub result : List (Text × List ℕ)
  pub completed : ℕ

abbrev pub initial : List Item → Pool
initial work = record { waiting = work; running = []; result = []; completed = 0 }

-- `Math.min(concurrency, work.length)`, the number of workers.
abbrev pub workers : ℕ → List Item → ℕ
workers concurrency work = min concurrency (length work)

module _ (e : Evmfs) (width : ℕ) where
  -- A free worker takes `work[idx++]`; or an item's data arrive, and its worker is free again.
  pub data Step (p : Pool) : Pool → Type 0 where
    take_item :
        (item : Item) (waiting : List Item)
        → p.waiting ≡ item ∷ waiting
        → length p.running < width
        → Step p (record p { waiting = waiting; running = p.running ++ item ∷ [] })
    settle :
        (left : List Item) (item : Item) (right : List Item) (bytes : List ℕ)
        → p.running ≡ left ++ item ∷ right
        → fetch_entry e item.entry ≡ ok bytes
        → Step p (record p {
          running = left ++ right;
          result = set_result item.key bytes p.result;
          completed = suc p.completed;
        })

  pub data Reach (work : List Item) : Pool → Type 0 where
    start : Reach work (initial work)
    later : {p q : Pool} → Reach work p → Step p q → Reach work q
