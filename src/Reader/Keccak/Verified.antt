-- ===== src/Reader/Keccak/Verified.antt =====
-- lib/src/keccak256.ts: what the answer of `verifyHash` says.
use evmfs.Prelude.{
  ℕ, ◌<◌, ◌≡◌, ◌↔◌, refl, sym, ap, ◌∙◌, ◌⊎◌, inl, inr, ◌&&◌, ◌||◌, not, false, Bool, true, Option,
  none, some, List, [], ◌∷◌, ◌++◌, All, All-append, Bool-cases, Option-cases, subst,
}
use evmfs.Prelude.Text.{Text, text_eq_iff, to_lower, strip_0x}
use evmfs.Prelude.Member.{In, In-append, In-append_left, In-append_right}
use evmfs.Reader.Abi.{hex_to_bytes}
use evmfs.Reader.Keccak.Hex.{hex_to_bytes-bytes_to_hex}
use evmfs.Reader.Keccak.{
  KeccakState, bytes_to_hex, begin_load, answer_hash, Running, Answered, Checks, called, resumed,
  end_load, calls, settles, resumes, Reach, loaded, next,
}

or_false : (b : Bool) → (b || false) ≡ b
or_false true = refl
or_false false = refl

or_true : (b : Bool) → (b || true) ≡ true
or_true true = refl
or_true false = refl

-- The call that comes, if it imports or not.
abbrev new_call : List ℕ → Text → Checks → Bool → Running
new_call bytes expected w imports = record {
  bytes = bytes;
  expected_hash = expected;
  imports = imports;
  overlaps = not imports && w.importing;
}

In-wider :
    (d : Running) (before : List Running) (c : Running) (after : List Running)
    → In d (before ++ after)
    → In d (before ++ c ∷ after)
In-wider d before c after i = elim (In-append d before after i) [
  | inl j ↦ In-append_left d before (c ∷ after) j
  | inr j ↦ In-append_right d before (c ∷ after) (inr j)
]

In-middle : (c : Running) (before after : List Running) → In c (before ++ c ∷ after)
In-middle c before after = In-append_right c before (c ∷ after) (inl refl)

-- What a call that runs tells: the import was begun, and it is over for a call that neither makes it nor
-- came during it.
record InTime (w : Checks) (c : Running) : Type 0 where
  attempted : w.vars.attempted ≡ true
  over : c.imports ≡ false → c.overlaps ≡ false → w.importing ≡ false

module _ (installed : Option (List ℕ → List ℕ)) where
  -- What an answer says of the bytes and the hash that was expected.
  abbrev pub Says : Answered → Type 0
  Says a = elim a.answer [
    | none ↦ (installed ≡ none) ⊎ (a.call.overlaps ≡ true)
    | some b ↦
        (keccak : List ℕ → List ℕ) × (installed ≡ some keccak)
        × ((b ≡ true) ↔ (to_lower a.call.expected_hash ≡ bytes_to_hex (keccak a.call.bytes)))
        × (b ≡ true
            → All (λ x. x < 256) (keccak a.call.bytes)
            → hex_to_bytes (strip_0x (to_lower a.call.expected_hash)) ≡ keccak a.call.bytes)
  ]

  record IsKept (w : Checks) : Type 0 where
    over : w.importing ≡ false → w.vars.attempted ≡ true → w.vars.keccak256fn ≡ installed
    sound : (keccak : List ℕ → List ℕ) → w.vars.keccak256fn ≡ some keccak → installed ≡ some keccak
    in_time : (c : Running) → In c w.running → InTime w c
    said : All Says w.answered

  -- The variables that an answer leaves.
  answer_hash_kept :
      (bytes : List ℕ) (expected : Text) (s : KeccakState)
      → ((answer_hash bytes expected s).1.keccak256fn ≡ s.keccak256fn)
        × ((answer_hash bytes expected s).1.attempted ≡ s.attempted)
  unfolding answer_hash
  answer_hash_kept bytes expected s = elim (Option-cases s.keccak256fn) [
    | inl n ↦ rw (n, answer_hash) (n, refl)
    | inr (keccak, e) ↦ rw (e, answer_hash) (e, refl)
  ]

  answer_hash-Says :
      (w : Checks) (c : Running)
      → IsKept w
      → InTime w c
      → (c.imports ≡ true → w.importing ≡ false)
      → Says (record { call = c; answer = (answer_hash c.bytes c.expected_hash w.vars).0 })
  unfolding answer_hash
  answer_hash-Says w c k t waits = elim (Option-cases w.vars.keccak256fn) [
    | inr (keccak, e) ↦
        let (sound, complete) =
          text_eq_iff (bytes_to_hex (keccak c.bytes)) (to_lower c.expected_hash) in
        rw (e, answer_hash)
          (
            keccak,
            k.sound keccak e,
            ((λ b. sym (sound b)), (λ same. complete (sym same))),
            λ b small.
                ap (λ x. hex_to_bytes (strip_0x x)) (sym (sound b))
                ∙ hex_to_bytes-bytes_to_hex (keccak c.bytes) small,
          )
    | inl n ↦
        rw (n, answer_hash)
          (elim (Bool-cases c.overlaps) [
            | inl during ↦ inr during
            | inr apart ↦
                let settled : w.importing ≡ false = elim (Bool-cases c.imports) [
                  | inl own ↦ waits own
                  | inr other ↦ t.over other apart
                ] in
                inl (sym (k.over settled t.attempted) ∙ n)
          ])
  ]

  -- The world after a call that has begun with `r`.
  abbrev with_call : List ℕ → Text → Checks → Bool × KeccakState → Checks
  with_call bytes expected w r = record w {
    vars = r.1;
    importing = w.importing || r.0;
    running = w.running ++ new_call bytes expected w r.0 ∷ [];
  }

  second-IsKept :
      (bytes : List ℕ) (expected : Text) (w : Checks)
      → IsKept w
      → w.vars.attempted ≡ true
      → IsKept (with_call bytes expected w (false, w.vars))
  second-IsKept bytes expected w k tried = record {
    over = λ o a. k.over (sym (or_false w.importing) ∙ o) a;
    sound = k.sound;
    in_time = λ c i. elim (In-append c w.running (new_call bytes expected w false ∷ []) i) [
      | inl j ↦
          let t = k.in_time c j in
          record { attempted = t.attempted; over = λ o a. or_false w.importing ∙ t.over o a }
      | inr (inl same) ↦ record {
        attempted = tried;
        over = λ o a. or_false w.importing ∙ (ap (λ (x : Running). x.overlaps) same ∙ a);
      }
      | inr (inr j) ↦ absurd j
    ];
    said = k.said;
  }

  first-IsKept :
      (bytes : List ℕ) (expected : Text) (w : Checks)
      → IsKept w
      → w.vars.attempted ≡ false
      → IsKept (with_call bytes expected w (true, record w.vars { attempted = true }))
  first-IsKept bytes expected w k fresh = record {
    over = λ o a. let o' = sym (or_true w.importing) ∙ o in cc;
    sound = k.sound;
    in_time = λ c i. elim (In-append c w.running (new_call bytes expected w true ∷ []) i) [
      | inl j ↦ let t = (k.in_time c j).attempted in absurd cc
      | inr (inl same) ↦ record {
        attempted = refl;
        over = λ o a. let own = ap (λ (x : Running). x.imports) same ∙ o in absurd cc;
      }
      | inr (inr j) ↦ absurd j
    ];
    said = k.said;
  }

  called-IsKept :
      (bytes : List ℕ) (expected : Text) (w : Checks) → IsKept w → IsKept (called bytes expected w)
  unfolding called begin_load
  called-IsKept bytes expected w k = elim (Bool-cases w.vars.attempted) [
    | inl tried ↦
        let e : begin_load w.vars ≡ (false, w.vars) = rw tried refl in
        subst (λ r. IsKept (with_call bytes expected w r)) (sym e)
          (second-IsKept bytes expected w k tried)
    | inr fresh ↦
        let e : begin_load w.vars ≡ (true, record w.vars { attempted = true }) = rw fresh refl in
        subst (λ r. IsKept (with_call bytes expected w r)) (sym e)
          (first-IsKept bytes expected w k fresh)
  ]

  end_load-IsKept : (w : Checks) → IsKept w → IsKept (end_load installed w)
  unfolding end_load
  end_load-IsKept w k = record {
    over = λ o a. refl;
    sound = λ keccak e. e;
    in_time = λ c i. record { attempted = (k.in_time c i).attempted; over = λ o a. refl };
    said = k.said;
  }

  resumed-IsKept :
      (before : List Running) (c : Running) (after : List Running) (w : Checks)
      → w.running ≡ before ++ c ∷ after
      → (c.imports ≡ true → w.importing ≡ false)
      → IsKept w
      → IsKept (resumed before c after w)
  unfolding resumed
  resumed-IsKept before c after w split waits k =
      let (fn, tried) = answer_hash_kept c.bytes c.expected_hash w.vars in
      let at : (d : Running) → In d (before ++ c ∷ after) → InTime w d =
        λ d i. k.in_time d (subst (In d) (sym split) i) in
      record {
        over = λ o a. fn ∙ k.over o (sym tried ∙ a);
        sound = λ keccak e. k.sound keccak (sym fn ∙ e);
        in_time = λ d i.
            let t = at d (In-wider d before c after i) in
            record { attempted = tried ∙ t.attempted; over = t.over };
        said =
            All-append Says w.answered
              (record { call = c; answer = (answer_hash c.bytes c.expected_hash w.vars).0 } ∷ [])
              k.said (answer_hash-Says w c k (at c (In-middle c before after)) waits, tt);
      }

  Reach-IsKept : (w : Checks) → Reach installed w → IsKept w
  Reach-IsKept w loaded = record {
    over = λ o a. cc;
    sound = λ keccak e. cc;
    in_time = λ c i. absurd i;
    said = tt;
  }
  Reach-IsKept v (next w u r (calls bytes expected e)) =
      subst IsKept (sym e) (called-IsKept bytes expected w (Reach-IsKept w r))
  Reach-IsKept v (next w u r (settles pending e)) =
      subst IsKept (sym e) (end_load-IsKept w (Reach-IsKept w r))
  Reach-IsKept v (next w u r (resumes before c after split waits e)) =
      subst IsKept (sym e) (resumed-IsKept before c after w split waits (Reach-IsKept w r))

  -- Calls of `verifyHash` may overlap in any way. A call is answered with nothing only if the package is
  -- missing, or if it came while the import that another call had begun was pending. Otherwise the
  -- answer is whether the expected hash, in lower case, is the hexadecimal text of the bytes' hash; if
  -- it is yes, `hexToBytes` reads the bytes' hash in the expected one.
  pub Reach-Says : (w : Checks) → Reach installed w → All Says w.answered
  Reach-Says w r = (Reach-IsKept w r).said
