-- ===== src/Prelude/ParseInt.antt =====
-- `parseInt(text, radix)` in full: white space, a sign, and the digits at the head.
use Prim.Native.Nat.{ℕ, ◌<◌}
use mathlib.Core.Bool.{Bool, false, ◌&&◌, ◌||◌}
use mathlib.Core.List.{List, [], ◌∷◌, map}
use mathlib.Core.Path.{◌≡◌, refl, sym, ◌∙◌, ap, subst}
use native.Mathlib.Omega.{arith}
use evmfs.Prelude.Tests.{leb, ◌==◌, if◌then◌else◌}
use evmfs.Prelude.Text.{Text, codes}
use evmfs.Prelude.Digits.{
  decimal, digit_char, leading_digits, leading_digits-map, to_digits-All, to_digits-cons, value,
  decimal-eq, value-to_digits,
}
use evmfs.Prelude.Lists.{All}

pub data Parsed : Type 0 where
  nan : Parsed
  number negative : ℕ → Parsed

-- The white space of JavaScript below U+0100, and the byte order mark.
is_space : ℕ → Bool
is_space c = leb 9 c && leb c 13 || c == 32 || c == 160 || c == 0xfeff

skip_space : Text → Text
skip_space [] = []
skip_space (c ∷ s) = if is_space c then skip_space s else c ∷ s

digits_number : ℕ → List ℕ → Parsed
digits_number radix [] = nan
digits_number radix (d ∷ ds) = number (value radix 0 (d ∷ ds))

negate : Parsed → Parsed
negate nan = nan
negate (number n) = negative n
negate (negative n) = negative n

-- With radix 16, `0x` or `0X` before the digits is skipped.
skip_0x : ℕ → Text → Text
skip_0x radix (a ∷ b ∷ s) =
    if (radix == 16) && ((a == b'0') && (b == b'x' || b == b'X')) then s else a ∷ b ∷ s
skip_0x radix s = s

unsigned : ℕ → Text → Parsed
unfolding digits_number skip_0x
unsigned radix s = digits_number radix (leading_digits radix (skip_0x radix s))

after_space : ℕ → Text → Parsed
after_space radix [] = nan
after_space radix (c ∷ s) =
    if c == b'-'
    then negate (unsigned radix s)
    else if c == b'+'
    then unsigned radix s
    else unsigned radix (c ∷ s)

unfoldable pub parse_int : ℕ → Text → Parsed
unfolding is_space skip_space negate unsigned after_space
parse_int radix s = after_space radix (skip_space s)

parse_int_tests :
    (parse_int 10 (codes "25000000") ≡ number 25000000)
    × (parse_int 10 (codes " -7x") ≡ negative 7)
    × (parse_int 10 (codes "x1") ≡ nan)
    × (parse_int 16 (codes "0xC350") ≡ number 50000)
unfolding parse_int leading_digits value
parse_int_tests = (refl, refl, refl, refl)

skip_0x-decimal : (s : Text) → skip_0x 10 s ≡ s
unfolding skip_0x
skip_0x-decimal [] = refl
skip_0x-decimal (a ∷ []) = refl
skip_0x-decimal (a ∷ b ∷ s) = refl

is_space-digit : (d : ℕ) → d < 10 → is_space (digit_char d) ≡ false
unfolding is_space digit_char
is_space-digit d h = ground arith

no_minus : (d : ℕ) → d < 10 → (digit_char d == b'-') ≡ false
unfolding digit_char
no_minus d h = ground arith

no_plus : (d : ℕ) → d < 10 → (digit_char d == b'+') ≡ false
unfolding digit_char
no_plus d h = ground arith

-- A text that begins with a digit is read as its leading digits.
digits_text :
    (d : ℕ) (rest : Text)
    → d < 10
    → parse_int 10 (digit_char d ∷ rest)
      ≡ digits_number 10 (leading_digits 10 (digit_char d ∷ rest))
unfolding parse_int
digits_text d rest h = rw (is_space-digit d h) (
    rw (no_minus d h) (
      rw (no_plus d h)
        (ap (λ s. digits_number 10 (leading_digits 10 s)) (skip_0x-decimal (digit_char d ∷ rest)))))

digits_number-cons :
    (radix d : ℕ) (ds : List ℕ) → digits_number radix (d ∷ ds) ≡ number (value radix 0 (d ∷ ds))
unfolding digits_number
digits_number-cons radix d ds = refl

-- `parseInt(String(n), 10)` is `n`.
pub parse_int-decimal : (n : ℕ) → parse_int 10 (decimal n) ≡ number n
parse_int-decimal n =
    let (d, rest, e) = to_digits-cons 10 n in
    let small : All (λ d. d < 10) (d ∷ rest) =
      subst (All (λ d. d < 10)) e (to_digits-All 10 n (omega arith)) in
    ap (parse_int 10) (decimal-eq n ∙ ap (map digit_char) e)
    ∙ digits_text d (map digit_char rest) small.0
    ∙ ap (digits_number 10) (leading_digits-map 10 (d ∷ rest) (omega arith) small)
    ∙ digits_number-cons 10 d rest
    ∙ ap number (ap (value 10 0) (sym e) ∙ value-to_digits 10 n (omega arith))
