-- ===== src/Cli/Names/Accepted.antt =====
-- cli/src/names.ts and contracts/src/EVMFSNames.sol: the two tests of a name.
use evmfs.Prelude.{
  ℕ, suc, ◌+◌, ◌-◌, ◌<◌, ◌≡◌, refl, sym, ◌∙◌, ap, Bool, true, false, ◌&&◌, ◌||◌, [], ◌∷◌, length,
  leb, ltb, ◌==◌, if◌then◌else◌, arith,
}
use evmfs.Prelude.Text.{Text}
use evmfs.Contract.Names.{is_letter, is_digit, valid_from, is_valid_name, accepts_name}
use evmfs.Cli.Names.{is_alnum, is_name_char, matches_group, matches_name}

-- The three tests of the loop in one.
three_tests :
    (a b c r : Bool)
    → (if a then r else if b then r else if c then r else false) ≡ (((a || b) || c) && r)
three_tests true b c r = refl
three_tests false true c r = refl
three_tests false false true r = refl
three_tests false false false r = refl

outside : (a h r : Bool) → ((a || (h && false)) && r) ≡ (a && r)
outside true h r = refl
outside false true r = refl
outside false false r = refl

within : (a h r : Bool) → ((a || (h && true)) && r) ≡ ((a || h) && r)
within true h r = refl
within false true r = refl
within false false r = refl

and_true : (a : Bool) → (a && true) ≡ a
and_true true = refl
and_true false = refl

-- Whether a hyphen may stand at byte `i` of `n`.
abbrev inside : ℕ → ℕ → Bool
inside n i = ltb 0 i && ltb i (n - 1)

valid_from-step :
    (n i c : ℕ) (s : Text)
    → valid_from n i (c ∷ s) ≡ ((is_alnum c || (c == 0x2d) && inside n i) && valid_from n (suc i) s)
unfolding valid_from
valid_from-step n i c s =
    three_tests (is_letter c) (is_digit c) ((c == 0x2d) && inside n i) (valid_from n (suc i) s)

valid_from-end : (a : Bool) (n i : ℕ) → (a && valid_from n i []) ≡ a
unfolding valid_from
valid_from-end a n i = and_true a

inside-last : (n i : ℕ) → n ≡ suc i → inside n i ≡ false
inside-last n i e = ground arith

inside-middle : (n i : ℕ) → suc (suc i) < n → inside n (suc i) ≡ true
inside-middle n i h = ground arith

-- After the first byte the loop accepts what the group of the expression matches, and the end.
valid_from-cons :
    (n i c : ℕ) (s : Text)
    → n ≡ suc i + suc (length s)
    → valid_from n (suc i) (c ∷ s) ≡ matches_group (c ∷ s)
unfolding matches_group
valid_from-cons n i c [] e =
    valid_from-step n (suc i) c []
    ∙ ap (λ t. (is_alnum c || (c == 0x2d) && t) && valid_from n (suc (suc i)) [])
        (inside-last n (suc i) (omega arith))
    ∙ outside (is_alnum c) (c == 0x2d) (valid_from n (suc (suc i)) [])
    ∙ valid_from-end (is_alnum c) n (suc (suc i))
valid_from-cons n i c (d ∷ s) e =
    valid_from-step n (suc i) c (d ∷ s)
    ∙ ap (λ t. (is_alnum c || (c == 0x2d) && t) && valid_from n (suc (suc i)) (d ∷ s))
        (inside-middle n i (omega arith))
    ∙ within (is_alnum c) (c == 0x2d) (valid_from n (suc (suc i)) (d ∷ s))
    ∙ ap (λ t. is_name_char c && t) (valid_from-cons n (suc i) d s (omega arith))

is_valid_name-eq : (c : ℕ) (s : Text) → is_valid_name (c ∷ s) ≡ matches_name (c ∷ s)
unfolding is_valid_name matches_name
is_valid_name-eq c [] =
    valid_from-step 1 0 c []
    ∙ outside (is_alnum c) (c == 0x2d) (valid_from 1 1 [])
    ∙ valid_from-end (is_alnum c) 1 1
is_valid_name-eq c (d ∷ s) =
    let n = suc (suc (length s)) in
    valid_from-step n 0 c (d ∷ s)
    ∙ outside (is_alnum c) (c == 0x2d) (valid_from n 1 (d ∷ s))
    ∙ ap (λ t. is_alnum c && t) (valid_from-cons n 0 d s (omega arith))

pub and_comm : (a b : Bool) → (a && b) ≡ (b && a)
and_comm true b = sym (and_true b)
and_comm false true = refl
and_comm false false = refl

-- For a name of ASCII characters, whose bytes they are: the contract takes the name exactly when it
-- matches the command's expression and has at most 32 characters.
pub accepts_name-matches :
    (name : Text) → accepts_name name ≡ (matches_name name && leb (length name) 32)
unfolding matches_name
accepts_name-matches [] = refl
accepts_name-matches (c ∷ s) =
    let some_byte : ltb 0 (length (c ∷ s)) ≡ true = ground arith in
    rw some_byte (
      and_comm (leb (length (c ∷ s)) 32) (is_valid_name (c ∷ s))
      ∙ ap (λ t. t && leb (length (c ∷ s)) 32) (is_valid_name-eq c s))
