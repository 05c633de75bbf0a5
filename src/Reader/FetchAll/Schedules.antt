-- ===== src/Reader/FetchAll/Schedules.antt =====
-- lib/src/index.ts, `fetchAll`: the orders in which the data can arrive.
use evmfs.Prelude.{
  ℕ, suc, ◌+◌, ◌*◌, ◌<◌, ◌≡◌, refl, sym, ◌∙◌, ap, subst, ◌⊎◌, inl, inr, List, [], ◌∷◌, ◌++◌, length,
  length-append, err, Result-cases, arith, ltb, Bool-cases,
}
use evmfs.Prelude.Member.{In}
use evmfs.Reader.Evmfs.{Evmfs, FetchError, fetch_entry}
use evmfs.Reader.FetchAll.{Item, Pool, Step, take_item, settle, Reach, set_result}
use evmfs.Reader.FetchAll.Invariant.{IsFetched, HasUniqueKeys, Reach-IsPool}

module _ (e : Evmfs) (width : ℕ) where
  -- Every worker has stopped: nothing runs, and nothing waits unless there is no worker.
  pub record IsFinished (p : Pool) : Type 0 where
    pub idle : p.running ≡ []
    pub rest : (p.waiting ≡ []) ⊎ (width ≡ 0)

  -- A running item whose data cannot be fetched, with whose error `fetchAll` rejects.
  pub record IsFailing (p : Pool) : Type 0 where
    pub item : Item
    pub runs : In item p.running
    pub error : FetchError
    pub fails : fetch_entry e item.entry ≡ err error

  -- The steps that are left at most: two for a waiting item, one for a running one.
  abbrev pub steps_left : Pool → ℕ
  steps_left p = 2 * length p.waiting + length p.running

  -- Every step leaves fewer steps to take, so no schedule goes on for ever.
  pub steps_left-Step : (p q : Pool) → Step e width p q → steps_left q < steps_left p
  steps_left-Step p q (take_item item waiting same room) =
      let longer = length-append p.running (item ∷ []) in
      let split : length p.waiting ≡ suc (length waiting) = ap length same in omega arith
  steps_left-Step p q (settle left item right bytes same got) =
      let before : length p.running ≡ length left + suc (length right) =
        ap length same ∙ length-append left (item ∷ right) in
      let after = length-append left right in omega arith

  front_runs :
      (p : Pool) (item : Item) (right : List Item)
      → p.running ≡ item ∷ right
      → ((q : Pool) × Step e width p q) ⊎ IsFailing p
  front_runs p item right same = elim (Result-cases (fetch_entry e item.entry)) [
    | inl (bytes, got) ↦ inl (
      record p {
        running = right;
        result = set_result item.key bytes p.result;
        completed = suc p.completed;
      },
      settle [] item right bytes same got,
    )
    | inr (error, fails) ↦ inr (record {
      item = item;
      runs = subst (In item) (sym same) (inl refl);
      error = error;
      fails = fails;
    })
  ]

  -- The pool is never stuck: in any state it has finished, can take a step, or fails.
  pub IsFinished-or_Step :
      (p : Pool) → IsFinished p ⊎ (((q : Pool) × Step e width p q) ⊎ IsFailing p)
  IsFinished-or_Step p = running p.running refl
    where
      waiting :
          (w : List Item)
          → p.waiting ≡ w
          → p.running ≡ []
          → IsFinished p ⊎ (((q : Pool) × Step e width p q) ⊎ IsFailing p)
      waiting [] same none_run = inl (record { idle = none_run; rest = inl same })
      waiting (item ∷ w) same none_run = elim (Bool-cases (ltb 0 width)) [
        | inl some_worker ↦
            let room : length p.running < width =
              let empty : length p.running ≡ 0 = ap length none_run in ground arith in
            inr (
              inl (
                record p { waiting = w; running = p.running ++ item ∷ [] },
                take_item item w same room,
              ))
        | inr no_worker ↦
            let zero_width : width ≡ 0 = ground arith in
            inl (record { idle = none_run; rest = inr zero_width })
      ]

      running :
          (r : List Item)
          → p.running ≡ r
          → IsFinished p ⊎ (((q : Pool) × Step e width p q) ⊎ IsFailing p)
      running [] same = waiting p.waiting refl same
      running (item ∷ r) same = inr (front_runs p item r same)

  -- If there is a worker and no two items have one key, then the pool, once it has finished, has
  -- counted every item, and its result has the data of each, in whatever order they arrived.
  pub Reach-IsFetched :
      (work : List Item) (p : Pool)
      → 0 < width
      → HasUniqueKeys e width work
      → Reach e width work p
      → IsFinished p
      → (p.completed ≡ length work) × ((x : Item) → In x work → IsFetched e width work p.result x)
  Reach-IsFetched work p some_worker unique reached f =
      let h = Reach-IsPool e width work reached in
      let none_run : length p.running ≡ 0 = ap length f.idle in
      let none_wait : p.waiting ≡ [] = elim f.rest [ inl w ↦ w | inr z ↦ absurd (omega arith) ] in
      let all_taken : length p.waiting ≡ 0 = ap length none_wait in
      let count = h.count in
      (
        omega arith,
        λ x i. elim (h.placed unique x i) [
          | inl w ↦ absurd (subst (In x) none_wait w)
          | inr r ↦ elim r [ inl n ↦ absurd (subst (In x) f.idle n) | inr done ↦ done ]
        ],
      )
