-- ===== src/Reader/Abi/Encode.antt =====
-- The Solidity ABI encoding of one `bytes` value, as a description independent of the decoder: the
-- offset 32, the length, the bytes, and padding, all in hexadecimal.
use evmfs.Prelude.{
  ℕ, zero, suc, ◌+◌, ◌*◌, ◌/◌, ◌%◌, List, [], ◌∷◌, ◌++◌, length, length-append, ◌≡◌, ◌<◌, refl, ◌∙◌,
  ap, arith,
}
use evmfs.Prelude.Text.{Text}
use evmfs.Prelude.Digits.{digit_char}
use evmfs.Reader.Abi.{big_endian}

-- `n` in `k` bytes, the most significant first.
unfoldable pub word : ℕ → ℕ → List ℕ
word zero n = []
word (suc k) n = word k (n / 256) ++ n % 256 ∷ []

unfoldable pub to_hex : List ℕ → Text
to_hex [] = []
to_hex (b ∷ bytes) = digit_char (b / 16) ∷ digit_char (b % 16) ∷ to_hex bytes

-- The encoding, before it is written in hexadecimal.
unfoldable pub payload : List ℕ → List ℕ → List ℕ
payload bytes padding = word 32 32 ++ (word 32 (length bytes) ++ (bytes ++ padding))

unfoldable pub abi_encode : List ℕ → List ℕ → Text
unfolding payload
abi_encode bytes padding = b'0' ∷ b'x' ∷ to_hex (payload bytes padding)

pub length-word : (k n : ℕ) → length (word k n) ≡ k
unfolding word
length-word zero n = refl
length-word (suc k) n =
    length-append (word k (n / 256)) (n % 256 ∷ []) ∙ (omega (arith, length-word k (n / 256)))

big_endian-append :
    (v : ℕ) (xs ys : List ℕ) → big_endian v (xs ++ ys) ≡ big_endian (big_endian v xs) ys
unfolding big_endian
big_endian-append v [] ys = refl
big_endian-append v (x ∷ xs) ys = big_endian-append (v * 256 + x) xs ys

-- The largest number of `k` bytes, and one.
unfoldable pub bound : ℕ → ℕ
bound zero = 1
bound (suc k) = bound k * 256

pub big_endian-word : (k n : ℕ) → n < bound k → big_endian 0 (word k n) ≡ n
unfolding big_endian word bound
big_endian-word zero n h = omega arith
big_endian-word (suc k) n h =
    big_endian-append 0 (word k (n / 256)) (n % 256 ∷ [])
    ∙ ap (λ v. v * 256 + n % 256) (big_endian-word k (n / 256) (omega arith))
    ∙ omega arith
