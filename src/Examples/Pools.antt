-- ===== src/Examples/Pools.antt =====
-- A pool of two workers and two items, of which the second arrives first.
use evmfs.Prelude.{◌<◌, ◌≡◌, refl, sym, ◌∙◌, inl, inr, List, [], ◌∷◌, length, arith, true, ◌≢◌, ap}
use evmfs.Prelude.Text.{Text, codes, text_eq_iff}
use evmfs.Prelude.Member.{In}
use evmfs.Cli.Manifest.{build_entry}
use evmfs.Reader.FetchAll.{
  Item, Pool, initial, Step, take_item, settle, Reach, start, later, set_result,
}
use evmfs.Reader.FetchAll.Invariant.{IsFetched, HasUniqueKeys}
use evmfs.Reader.FetchAll.Schedules.{steps_left, steps_left-Step, Reach-IsFetched}
use evmfs.RoundTrip.{parsed_entry}
use evmfs.Examples.Reads.{library, entry, entry_data}

abbrev item_a : Item
item_a = record { key = codes "a"; entry = parsed_entry (build_entry true entry) }

abbrev item_b : Item
item_b = record { key = codes "b"; entry = parsed_entry (build_entry true entry) }

abbrev work : List Item
work = item_a ∷ item_b ∷ []

abbrev both_running : Pool
both_running = record { waiting = []; running = work; result = []; completed = 0 }

abbrev ended : Pool
ended = record {
  waiting = [];
  running = [];
  result = set_result (codes "a") (1 ∷ []) (set_result (codes "b") (1 ∷ []) []);
  completed = 2;
}

first-Step :
    Step library 2
      (initial work)
      (record (initial work) { waiting = item_b ∷ []; running = item_a ∷ [] })
first-Step = take_item item_a (item_b ∷ []) refl (omega arith)

ended-Reach : Reach library 2 work ended
ended-Reach =
    later
      (later (later (later start first-Step) (take_item item_b [] refl (omega arith)))
        (settle (item_a ∷ []) item_b [] (1 ∷ []) refl entry_data))
      (settle [] item_a [] (1 ∷ []) refl entry_data)

keys_differ : item_a.key ≢ item_b.key
keys_differ e = let same = (text_eq_iff item_a.key item_b.key).1 e in cc

abbrev key_of : Item → Text
key_of x = x.key

unique : HasUniqueKeys library 2 work
unique x y i j same = elim i [
  | inl a ↦ elim j [
    | inl b ↦ sym a ∙ b
    | inr k ↦ elim k [
      | inl b ↦ absurd (keys_differ (ap key_of a ∙ same ∙ sym (ap key_of b)))
      | inr n ↦ absurd n
    ]
  ]
  | inr k ↦ elim k [
    | inl a ↦ elim j [
      | inl b ↦ absurd (keys_differ (ap key_of b ∙ sym same ∙ sym (ap key_of a)))
      | inr l ↦ elim l [ inl b ↦ sym a ∙ b | inr n ↦ absurd n ]
    ]
    | inr n ↦ absurd n
  ]
]

steps_left-Step_example :
    steps_left library 2 (record (initial work) { waiting = item_b ∷ []; running = item_a ∷ [] })
    < steps_left library 2 (initial work)
steps_left-Step_example =
    steps_left-Step library 2 (initial work)
      (record (initial work) { waiting = item_b ∷ []; running = item_a ∷ [] }) first-Step

Reach-IsFetched_example :
    (ended.completed ≡ length work)
    × ((x : Item) → In x work → IsFetched library 2 work ended.result x)
Reach-IsFetched_example =
    Reach-IsFetched library 2 work ended (omega arith) unique ended-Reach
      (record { idle = refl; rest = inl refl })
