-- ===== src/Reader/FetchAll/Invariant.antt =====
-- lib/src/index.ts, `fetchAll`: the states of the pool.
use evmfs.Prelude.{
  ℕ, suc, ◌+◌, ◌≤◌, ◌<◌, ◌≡◌, ◌≢◌, refl, sym, ◌∙◌, ap, subst, ◌⊎◌, inl, inr, false, some, List, [],
  ◌∷◌, ◌++◌, length, length-append, ok, Bool-cases, arith,
}
use evmfs.Prelude.Text.{Text, text_eq, text_eq_refl, text_eq_iff, text_eq_ne, text_eq_sound}
use evmfs.Prelude.Member.{In, In-append, In-append_left, In-append_right}
use evmfs.Reader.Evmfs.{Evmfs, fetch_entry}
use evmfs.Reader.FetchAll.{
  Item, Pool, initial, Step, take_item, settle, Reach, start, later, set_result, get_result,
}

get_result-set_result :
    (key : Text) (bytes : List ℕ) (result : List (Text × List ℕ))
    → get_result key (set_result key bytes result) ≡ some bytes
unfolding get_result set_result
get_result-set_result key bytes [] = rw (text_eq_refl key)
get_result-set_result key bytes ((k, old) ∷ rest) = elim (Bool-cases (text_eq k key)) [
  | inl h ↦ rw (h, h)
  | inr h ↦ rw (h, h) (get_result-set_result key bytes rest)
]

get_result-other :
    (key other : Text) (bytes : List ℕ) (result : List (Text × List ℕ))
    → other ≢ key
    → get_result key (set_result other bytes result) ≡ get_result key result
unfolding get_result set_result
get_result-other key other bytes [] ne = rw (text_eq_ne other key ne)
get_result-other key other bytes ((k, old) ∷ rest) ne = elim (Bool-cases (text_eq k other)) [
  | inl h ↦
      let differs : text_eq k key ≡ false =
        text_eq_ne k key (λ p. ne (sym (text_eq_sound k other h) ∙ p)) in
      rw (h, differs)
  | inr h ↦ elim (Bool-cases (text_eq k key)) [
    | inl g ↦ rw (h, g)
    | inr g ↦ rw (h, g) (get_result-other key other bytes rest ne)
  ]
]

module _ (e : Evmfs) (width : ℕ) (work : List Item) where
  -- The result has the item's data.
  pub record IsFetched (result : List (Text × List ℕ)) (x : Item) : Type 0 where
    pub bytes : List ℕ
    pub fetched : fetch_entry e x.entry ≡ ok bytes
    pub stored : get_result x.key result ≡ some bytes

  -- No two items have one key.
  abbrev pub HasUniqueKeys : Type 0
  HasUniqueKeys = (x y : Item) → In x work → In y work → x.key ≡ y.key → x ≡ y

  -- An item waits, runs, or is in the result.
  abbrev pub IsPlaced : Pool → Item → Type 0
  IsPlaced p x = In x p.waiting ⊎ (In x p.running ⊎ IsFetched p.result x)

  pub record IsPool (p : Pool) : Type 0 where
    pub bound : length p.running ≤ width
    pub count : p.completed + length p.running + length p.waiting ≡ length work
    pub of_work : (x : Item) → In x p.waiting ⊎ In x p.running → In x work
    pub placed : HasUniqueKeys → (x : Item) → In x work → IsPlaced p x

  initial-IsPool : IsPool (initial work)
  initial-IsPool = record {
    bound = omega arith;
    count = omega arith;
    of_work = λ x i. elim i [ inl w ↦ w | inr r ↦ absurd r ];
    placed = λ unique x i. inl i;
  }

  take_item-IsPool :
      (p : Pool) (item : Item) (waiting : List Item)
      → IsPool p
      → p.waiting ≡ item ∷ waiting
      → length p.running < width
      → IsPool (record p { waiting = waiting; running = p.running ++ item ∷ [] })
  take_item-IsPool p item waiting h same room =
      let longer = length-append p.running (item ∷ []) in
      let split : length p.waiting ≡ suc (length waiting) = ap length same in
      let total = h.count in
      record {
        bound = omega arith;
        count = omega arith;
        of_work = λ x i. elim i [
          | inl w ↦ h.of_work x (inl (subst (In x) (sym same) (inr w)))
          | inr r ↦ elim (In-append x p.running (item ∷ []) r) [
            | inl old ↦ h.of_work x (inr old)
            | inr new ↦ h.of_work x (inl (subst (In x) (sym same) (only x new)))
          ]
        ];
        placed = λ unique x i. elim (h.placed unique x i) [
          | inl w ↦ elim (subst (In x) same w) [
            | inl first ↦ inr (inl (In-append_right x p.running (item ∷ []) (inl first)))
            | inr rest ↦ inl rest
          ]
          | inr r ↦ elim r [
            | inl running ↦ inr (inl (In-append_left x p.running (item ∷ []) running))
            | inr done ↦ inr (inr done)
          ]
        ];
      }
    where
      only : (x : Item) → In x (item ∷ []) → In x (item ∷ waiting)
      only x i = elim i [ inl first ↦ inl first | inr none_left ↦ absurd none_left ]

  -- What is fetched stays so when another item's data arrive.
  IsFetched-set_result :
      (result : List (Text × List ℕ)) (x item : Item) (bytes : List ℕ)
      → HasUniqueKeys
      → In x work
      → In item work
      → fetch_entry e item.entry ≡ ok bytes
      → IsFetched result x
      → IsFetched (set_result item.key bytes result) x
  IsFetched-set_result result x item bytes unique i j got h =
      elim (Bool-cases (text_eq item.key x.key)) [
        | inl same ↦
            let keys = text_eq_sound item.key x.key same in
            subst (IsFetched (set_result item.key bytes result)) (unique item x j i keys) (record {
              bytes = bytes;
              fetched = got;
              stored = get_result-set_result item.key bytes result;
            })
        | inr differ ↦
            let ne : item.key ≢ x.key = λ p. let t = (text_eq_iff item.key x.key).1 p in cc in
            record {
              bytes = h.bytes;
              fetched = h.fetched;
              stored = get_result-other x.key item.key bytes result ne ∙ h.stored;
            }
      ]

  settle-IsPool :
      (p : Pool) (left : List Item) (item : Item) (right : List Item) (bytes : List ℕ)
      → IsPool p
      → p.running ≡ left ++ item ∷ right
      → fetch_entry e item.entry ≡ ok bytes
      → IsPool (record p {
        running = left ++ right;
        result = set_result item.key bytes p.result;
        completed = suc p.completed;
      })
  settle-IsPool p left item right bytes h same got =
      let before : length p.running ≡ length left + suc (length right) =
        ap length same ∙ length-append left (item ∷ right) in
      let after = length-append left right in
      let total = h.count in
      let at_most = h.bound in
      let own : In item work =
        h.of_work item (
          inr (subst (In item) (sym same) (In-append_right item left (item ∷ right) (inl refl)))) in
      record {
        bound = omega arith;
        count = omega arith;
        of_work = λ x i. elim i [
          | inl w ↦ h.of_work x (inl w)
          | inr r ↦ h.of_work x (inr (subst (In x) (sym same) (wider x r)))
        ];
        placed = λ unique x i. elim (h.placed unique x i) [
          | inl w ↦ inl w
          | inr r ↦ elim r [
            | inr done ↦
                inr (inr (IsFetched-set_result p.result x item bytes unique i own got done))
            | inl running ↦ elim (In-append x left (item ∷ right) (subst (In x) same running)) [
              | inl l ↦ inr (inl (In-append_left x left right l))
              | inr m ↦ elim m [
                | inr later_one ↦ inr (inl (In-append_right x left right later_one))
                | inl this ↦ inr (
                    inr (
                      subst (IsFetched (set_result item.key bytes p.result)) this (record {
                        bytes = bytes;
                        fetched = got;
                        stored = get_result-set_result item.key bytes p.result;
                      })))
              ]
            ]
          ]
        ];
      }
    where
      wider : (x : Item) → In x (left ++ right) → In x (left ++ item ∷ right)
      wider x i = elim (In-append x left right i) [
        | inl l ↦ In-append_left x left (item ∷ right) l
        | inr r ↦ In-append_right x left (item ∷ right) (inr r)
      ]

  Step-IsPool : {p q : Pool} → IsPool p → Step e width p q → IsPool q
  Step-IsPool {p} h (take_item item waiting same room) = take_item-IsPool p item waiting h same room
  Step-IsPool {p} h (settle left item right bytes same got) =
      settle-IsPool p left item right bytes h same got

  -- In every state that the pool reaches no more than `width` items run, the completed, the running and
  -- the waiting items are all the items in number, and, if no two items have one key, every item
  -- waits, runs, or stands in the result with the data that fetching it gives.
  pub Reach-IsPool : {p : Pool} → Reach e width work p → IsPool p
  Reach-IsPool start = initial-IsPool
  Reach-IsPool (later reached step) = Step-IsPool (Reach-IsPool reached) step
