-- ===== src/Reader/Keccak.antt =====
-- lib/src/keccak256.ts: `verifyHash`, whose calls may overlap. The package with the hash, which may be
-- missing, is a parameter.
pub mod Hex
pub mod Verified
use evmfs.Prelude.{
  ℕ, ◌-◌, ◌≡◌, ◌&&◌, ◌||◌, not, Bool, true, false, Option, none, some, List, [], ◌∷◌, ◌++◌, length,
  replicate,
}
use evmfs.Prelude.Text.{Text, codes, text_eq, to_lower}
use evmfs.Prelude.Digits.{to_base}

-- The variables of the module.
pub record KeccakState : Type 0 where
  pub keccak256fn : Option (List ℕ → List ℕ)
  pub attempted : Bool
  pub warned : Bool

abbrev pub unloaded : KeccakState
unloaded = record { keccak256fn = none; attempted = false; warned = false }

-- `hex.padStart(2, "0")`
abbrev pub pad_start : Text → Text
pad_start hex = replicate (2 - length hex) b'0' ++ hex

unfoldable pub hex_digits : List ℕ → Text
hex_digits [] = []
hex_digits (b ∷ bytes) = pad_start (to_base 16 b) ++ hex_digits bytes

unfoldable pub bytes_to_hex : List ℕ → Text
unfolding hex_digits
bytes_to_hex bytes = codes "0x" ++ hex_digits bytes

-- `loadKeccak256` up to its `await`: whether the call imports the package. Only the first call does.
unfoldable pub begin_load : KeccakState → Bool × KeccakState
begin_load s = elim s.attempted [
  | true ↦ (false, s)
  | false ↦ (true, record s { attempted = true })
]

-- `verifyHash` after `await loadKeccak256()`
unfoldable pub answer_hash : List ℕ → Text → KeccakState → Option Bool × KeccakState
unfolding bytes_to_hex
answer_hash bytes expected_hash s = elim s.keccak256fn [
  | none ↦ (none, record s { warned = true })
  | some keccak ↦ (some (text_eq (bytes_to_hex (keccak bytes)) (to_lower expected_hash)), s)
]

-- A call of `verifyHash` that has not been answered. `overlaps` tells, for the statements only, whether
-- the import of another call was pending when it came.
pub record Running : Type 0 where
  pub bytes : List ℕ
  pub expected_hash : Text
  pub imports : Bool
  pub overlaps : Bool

pub record Answered : Type 0 where
  pub call : Running
  pub answer : Option Bool

-- The module with the calls that run at the same time, and whether the import is pending.
pub record Checks : Type 0 where
  pub vars : KeccakState
  pub importing : Bool
  pub running : List Running
  pub answered : List Answered

abbrev pub no_checks : Checks
no_checks = record { vars = unloaded; importing = false; running = []; answered = [] }

-- A call of `verifyHash`, up to its first `await`.
unfoldable pub called : List ℕ → Text → Checks → Checks
unfolding begin_load
called bytes expected_hash w =
    let (imports, vars) = begin_load w.vars in
    record w {
      vars = vars;
      importing = w.importing || imports;
      running =
          w.running
          ++ record {
            bytes = bytes;
            expected_hash = expected_hash;
            imports = imports;
            overlaps = not imports && w.importing;
          }
            ∷ [];
    }

-- The rest of a call.
unfoldable pub resumed : List Running → Running → List Running → Checks → Checks
unfolding answer_hash
resumed before c after w =
    let (answer, vars) = answer_hash c.bytes c.expected_hash w.vars in
    record w {
      vars = vars;
      running = before ++ after;
      answered = w.answered ++ record { call = c; answer = answer } ∷ [];
    }

-- `installed` is what the import of the package gives.
module _ (installed : Option (List ℕ → List ℕ)) where
  -- `loadKeccak256` after the import has come, or has failed.
  unfoldable pub end_load : Checks → Checks
  end_load w = record w { vars = record w.vars { keccak256fn = installed }; importing = false }

  -- A step: a call comes, the import settles, or a call that does not wait for it goes on.
  pub data Step (w v : Checks) : Type 0 where
    calls : (bytes : List ℕ) (expected_hash : Text) → v ≡ called bytes expected_hash w → Step w v
    settles : w.importing ≡ true → v ≡ end_load w → Step w v
    resumes :
        (before : List Running) (c : Running) (after : List Running)
        → w.running ≡ before ++ c ∷ after
        → (c.imports ≡ true → w.importing ≡ false)
        → v ≡ resumed before c after w
        → Step w v

  pub data Reach : Checks → Type 0 where
    loaded : Reach no_checks
    next : (w v : Checks) → Reach w → Step w v → Reach v
