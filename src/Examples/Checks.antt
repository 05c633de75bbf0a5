-- ===== src/Examples/Checks.antt =====
-- Two calls of `verifyHash` at the same time.
use evmfs.Prelude.{ℕ, ◌≡◌, refl, true, none, some, false, List, [], ◌∷◌, map, All}
use evmfs.Prelude.Text.{codes, to_lower}
use evmfs.Prelude.Digits.{to_base}
use evmfs.Reader.Keccak.{
  Running, Answered, Checks, no_checks, called, resumed, end_load, begin_load, answer_hash,
  bytes_to_hex, Reach, loaded, next, calls, settles, resumes,
}
use evmfs.Reader.Keccak.Verified.{Says, Reach-Says}

abbrev digest : List ℕ → List ℕ
digest bytes = 0xab ∷ bytes

-- The first call imports the package, the second comes while it does.
abbrev one : Running
one = record { bytes = 1 ∷ []; expected_hash = codes "0xAB01"; imports = true; overlaps = false }

abbrev two : Running
two = record { bytes = 2 ∷ []; expected_hash = codes "0xab02"; imports = false; overlaps = true }

abbrev begun : Checks
begun = called (2 ∷ []) (codes "0xab02") (called (1 ∷ []) (codes "0xAB01") no_checks)

abbrev hurried : Checks
hurried = resumed (one ∷ []) two [] begun

abbrev finished : Checks
finished = resumed [] one [] (end_load (some digest) hurried)

begun_running : begun.running ≡ one ∷ two ∷ []
unfolding called begin_load
begun_running = refl

finished-Reach : Reach (some digest) finished
unfolding called begin_load resumed answer_hash end_load
finished-Reach =
    next (end_load (some digest) hurried) finished
      (next hurried (end_load (some digest) hurried)
        (next begun hurried
          (next (called (1 ∷ []) (codes "0xAB01") no_checks) begun
            (next no_checks (called (1 ∷ []) (codes "0xAB01") no_checks) loaded
              (calls (1 ∷ []) (codes "0xAB01") refl))
            (calls (2 ∷ []) (codes "0xab02") refl))
          (resumes (one ∷ []) two [] begun_running (λ own. cc) refl))
        (settles refl refl))
      (resumes [] one [] refl (λ own. refl) refl)

-- The second call is answered with nothing, although the package is there.
answers : map (λ (a : Answered). a.answer) finished.answered ≡ none ∷ some true ∷ []
unfolding called begin_load resumed answer_hash end_load bytes_to_hex to_lower to_base
answers = refl

Reach-Says_example : All (Says (some digest)) finished.answered
Reach-Says_example = Reach-Says (some digest) finished finished-Reach
