-- ===== src/Cli/Upload/Resume/Keys.antt =====
-- cli/src/upload.ts, `chunkKey`: the keys of chunks.
use evmfs.Prelude.{ℕ, ◌≡◌, sym, ◌∙◌, ap, List, ◌∷◌, ◌++◌, drop, drop-append, length, arith}
use evmfs.Prelude.Digits.{
  decimal, value, char_digit, leading_digits, leading_digits_stop, value-leading_digits,
}
use evmfs.Cli.Upload.Resume.{chunk_key}

append_cancel {ℓ} : {A : Type ℓ} (xs ys zs : List A) → xs ++ ys ≡ xs ++ zs → ys ≡ zs
append_cancel xs ys zs e = sym (drop-append xs ys) ∙ ap (drop (length xs)) e ∙ drop-append xs zs

decimal-injective : (n m : ℕ) → decimal n ≡ decimal m → n ≡ m
unfolding decimal
decimal-injective n m e =
    sym (value-leading_digits 10 n (omega arith) (omega arith))
    ∙ ap (λ t. value 10 0 (leading_digits 10 t)) e
    ∙ value-leading_digits 10 m (omega arith) (omega arith)

-- The number before the colon.
key_head : (n : ℕ) (rest : List ℕ) → value 10 0 (leading_digits 10 (decimal n ++ 58 ∷ rest)) ≡ n
unfolding decimal char_digit
key_head n rest = leading_digits_stop 10 n 58 rest (omega arith) (omega arith) (omega arith)

same_file : (a b c d : ℕ) → chunk_key a b ≡ chunk_key c d → a ≡ c
unfolding chunk_key
same_file a b c d e =
    sym (key_head a (decimal b))
    ∙ ap (λ t. value 10 0 (leading_digits 10 t)) e
    ∙ key_head c (decimal d)

same_place : (a b d : ℕ) → chunk_key a b ≡ chunk_key a d → b ≡ d
unfolding chunk_key
same_place a b d e =
    decimal-injective b d
      (ap (drop 1) (append_cancel (decimal a) (58 ∷ decimal b) (58 ∷ decimal d) e))

-- Two chunk keys are one text only if the files and the places are the same.
pub chunk_key-injective : (a b c d : ℕ) → chunk_key a b ≡ chunk_key c d → (a ≡ c) × (b ≡ d)
chunk_key-injective a b c d e =
    let file = same_file a b c d e in
    (file, same_place a b d (e ∙ sym (ap (λ n. chunk_key n d) file)))
