-- ===== src/NamesUi/Typed.antt =====
-- names-ui/src/App.tsx: the test of a name that was typed in.
use evmfs.Prelude.{
  ℕ, ◌≡◌, refl, sym, inl, inr, Bool, true, false, ◌&&◌, not, [], ◌∷◌, length, keep, map, leb, ltb,
  ◌==◌, All, Bool-cases, arith,
}
use evmfs.Prelude.Text.{Text}
use evmfs.Contract.Names.{accepts_name}
use evmfs.Cli.Names.{is_alnum, is_name_char, matches_group, matches_name}
use evmfs.Cli.Names.Accepted.{and_comm, accepts_name-matches}
use evmfs.NamesUi.{typed_name, name_valid, lower_letter}

abbrev pub is_hyphen : ℕ → Bool
is_hyphen c = c == b'-'

-- Whether the first character, or the last one, is a hyphen.
abbrev pub hyphen_first : Text → Bool
hyphen_first [] = false
hyphen_first (c ∷ s) = is_hyphen c

abbrev pub hyphen_last : Text → Bool
hyphen_last [] = false
hyphen_last (c ∷ []) = is_hyphen c
hyphen_last (c ∷ d ∷ s) = hyphen_last (d ∷ s)

abbrev IsTyped : Text → Type 0
IsTyped s = All (λ c. is_name_char c ≡ true) s

keep-All : (s : Text) → IsTyped (keep is_name_char s)
keep-All [] = tt
keep-All (c ∷ s) = elim (Bool-cases (is_name_char c)) [
  | inl e ↦ rw e (e, keep-All s)
  | inr e ↦ rw e (keep-All s)
]

-- A character of a name that is no hyphen is a letter or a digit.
alnum_unless_hyphen : (c : ℕ) → is_name_char c ≡ true → is_alnum c ≡ not (is_hyphen c)
alnum_unless_hyphen c h = ground arith

alone : (b : Bool) → (not b && true) ≡ (not b && not b)
alone true = refl
alone false = refl

matches_group-typed :
    (c : ℕ) (s : Text) → IsTyped (c ∷ s) → matches_group (c ∷ s) ≡ not (hyphen_last (c ∷ s))
unfolding matches_group
matches_group-typed c [] (h, t) = alnum_unless_hyphen c h
matches_group-typed c (d ∷ s) (h, t) = rw h (matches_group-typed d s t)

valid_typed :
    (s : Text)
    → IsTyped s
    → name_valid s
      ≡ (ltb 0 (length s) && (leb (length s) 32 && (not (hyphen_first s) && not (hyphen_last s))))
unfolding name_valid matches_name
valid_typed [] h = refl
valid_typed (c ∷ []) (h, t) = rw (alnum_unless_hyphen c h) (alone (is_hyphen c))
valid_typed (c ∷ d ∷ s) (h, t) =
    let some_char : ltb 0 (length (c ∷ d ∷ s)) ≡ true = ground arith in
    rw (some_char, alnum_unless_hyphen c h, matches_group-typed d s t)
      (and_comm (not (is_hyphen c) && not (hyphen_last (d ∷ s))) (leb (length (c ∷ d ∷ s)) 32))

-- Whatever is typed in, the page takes the name exactly when the registry's contract does, and that is
-- when the name is not empty, has at most 32 characters and neither begins nor ends with a hyphen.
pub name_valid-typed_name :
    (t : Text)
    → let s = typed_name t in
      (name_valid s ≡ accepts_name s)
      × (name_valid s ≡ (
          ltb 0 (length s) && (leb (length s) 32 && (not (hyphen_first s) && not (hyphen_last s)))))
unfolding typed_name name_valid
name_valid-typed_name t = (
  sym (accepts_name-matches (typed_name t)),
  valid_typed (typed_name t) (keep-All (map lower_letter t)),
)
