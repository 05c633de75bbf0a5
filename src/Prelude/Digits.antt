-- ===== src/Prelude/Digits.antt =====
-- Numbers as text: `n.toString(base)` and `parseInt(text, base)`.
use Prim.Native.Nat.{ℕ, zero, suc, ◌+◌, ◌*◌, ◌-◌, ◌/◌, ◌%◌, ◌≤◌, ◌<◌}
use mathlib.Core.Path.{◌≡◌, refl, ◌∙◌, ap}
use mathlib.Core.Logic.{inl, inr}
use mathlib.Core.Bool.{true, false, ◌&&◌}
use mathlib.Core.List.{List, [], ◌∷◌, ◌++◌, map}
use native.Mathlib.Omega.{arith}
use evmfs.Prelude.Tests.{Bool-cases, ltb, leb, if◌then◌else◌}
use evmfs.Prelude.Lists.{All}
use evmfs.Prelude.Text.{Text, codes}

-- The digits of `n` in a base, put before `acc`; each round of the fuel makes one digit.
digits_from : ℕ → ℕ → ℕ → List ℕ → List ℕ
digits_from zero base n acc = acc
digits_from (suc f) base n acc =
    let more = digits_from f base (n / base) (n % base ∷ acc) in
    if ltb n base then n ∷ acc else more

-- `n` has at most `n + 1` digits, so the fuel is enough.
unfoldable pub to_digits : ℕ → ℕ → List ℕ
unfolding digits_from
to_digits base n = digits_from (suc n) base n []

-- The character of a digit, `0` to `9` and then `a` to `f`.
unfoldable pub digit_char : ℕ → ℕ
digit_char d = if ltb d 10 then d + 48 else d + 87

-- `n.toString(base)`
unfoldable pub to_base : ℕ → ℕ → Text
unfolding to_digits digit_char
to_base base n = map digit_char (to_digits base n)

-- `String(n)`
unfoldable pub decimal : ℕ → Text
unfolding to_base
decimal n = to_base 10 n

pub decimal-eq : (n : ℕ) → decimal n ≡ map digit_char (to_digits 10 n)
unfolding decimal
decimal-eq n = refl

decimal_test : decimal 24826863 ≡ codes "24826863"
unfolding decimal
decimal_test = refl

hex_test : to_base 16 50000 ≡ codes "c350"
unfolding to_base
hex_test = refl

-- The number that digits stand for, with `v` before them.
unfoldable pub value : ℕ → ℕ → List ℕ → ℕ
value base v [] = v
value base v (d ∷ ds) = value base (v * base + d) ds

zero_head : (base n : ℕ) → 0 * base + n ≡ n
zero_head base n = omega arith

div-mod : (base n : ℕ) → n / base * base + n % base ≡ n
div-mod base n = grind arith

quotient-lt : (base n f : ℕ) → 2 ≤ base → n < suc f → base ≤ n → n / base < f
quotient-lt base n f b h large = grind (arith, div-mod base n)

value-digits_from :
    (f base n : ℕ) (acc : List ℕ)
    → 2 ≤ base
    → n < f
    → value base 0 (digits_from f base n acc) ≡ value base n acc
unfolding digits_from value
value-digits_from zero base n acc b h = elim h [ ]
value-digits_from (suc f) base n acc b h = elim (Bool-cases (ltb n base)) [
  | inl small ↦ rw small (ap (λ v. value base v acc) (zero_head base n))
  | inr large ↦ rw large (
      value-digits_from f base (n / base) (n % base ∷ acc) b
        (quotient-lt base n f b h (ground arith))
      ∙ ap (λ v. value base v acc) (div-mod base n))
]

pub value-to_digits : (base n : ℕ) → 2 ≤ base → value base 0 (to_digits base n) ≡ n
unfolding to_digits value
value-to_digits base n b = value-digits_from (suc n) base n [] b (omega arith)

-- A character as a digit of a base up to 16, in lower or upper case; 16 if it is none.
unfoldable pub char_digit : ℕ → ℕ
char_digit c =
    if leb b'0' c && leb c b'9'
    then c - 48
    else if leb b'a' c && leb c b'f'
    then c - 87
    else if leb b'A' c && leb c b'F'
    then c - 55
    else 16

char_digit-digit_char : (d : ℕ) → d < 16 → char_digit (digit_char d) ≡ d
unfolding char_digit digit_char
char_digit-digit_char d h = ground arith

-- The digits of the base at the head of a text: what `parseInt` reads.
unfoldable pub leading_digits : ℕ → Text → List ℕ
unfolding char_digit
leading_digits base [] = []
leading_digits base (c ∷ s) =
    if ltb (char_digit c) base then char_digit c ∷ leading_digits base s else []

digits_from-All :
    (f base n : ℕ) (acc : List ℕ)
    → 2 ≤ base
    → All (λ d. d < base) acc
    → All (λ d. d < base) (digits_from f base n acc)
unfolding digits_from
digits_from-All zero base n acc b h = h
digits_from-All (suc f) base n acc b h = elim (Bool-cases (ltb n base)) [
  | inl small ↦ rw small (ground arith, h)
  | inr large ↦ rw large (digits_from-All f base (n / base) (n % base ∷ acc) b (omega arith, h))
]

pub to_digits-All : (base n : ℕ) → 2 ≤ base → All (λ d. d < base) (to_digits base n)
unfolding to_digits
to_digits-All base n b = digits_from-All (suc n) base n [] b tt

pub leading_digits-map :
    (base : ℕ) (ds : List ℕ)
    → base ≤ 16
    → All (λ d. d < base) ds
    → leading_digits base (map digit_char ds) ≡ ds
unfolding leading_digits
leading_digits-map base [] b h = refl
leading_digits-map base (d ∷ ds) b (p, h) =
    ground (arith, char_digit-digit_char d, leading_digits-map base ds b h)

-- Reading back a printed number gives the number.
pub value-leading_digits :
    (base n : ℕ) → 2 ≤ base → base ≤ 16 → value base 0 (leading_digits base (to_base base n)) ≡ n
unfolding to_base
value-leading_digits base n b c =
    ap (value base 0) (leading_digits-map base (to_digits base n) c (to_digits-All base n b))
    ∙ value-to_digits base n b

leading_digits-append :
    (base c : ℕ) (ds rest : List ℕ)
    → base ≤ 16
    → base ≤ char_digit c
    → All (λ d. d < base) ds
    → leading_digits base (map digit_char ds ++ c ∷ rest) ≡ ds
unfolding leading_digits
leading_digits-append base c [] rest b stop h = ground arith
leading_digits-append base c (d ∷ ds) rest b stop (p, h) =
    ground (arith, char_digit-digit_char d, leading_digits-append base c ds rest b stop h)

-- Nor does what follows matter, if it begins with no digit.
pub leading_digits_stop :
    (base n c : ℕ) (rest : List ℕ)
    → 2 ≤ base
    → base ≤ 16
    → base ≤ char_digit c
    → value base 0 (leading_digits base (to_base base n ++ c ∷ rest)) ≡ n
unfolding to_base
leading_digits_stop base n c rest b most stop =
    ap (value base 0)
      (leading_digits-append base c (to_digits base n) rest most stop (to_digits-All base n b))
    ∙ value-to_digits base n b

digits_from-cons :
    (f base n d : ℕ) (acc : List ℕ)
    → (c : ℕ) × (rest : List ℕ) × (digits_from f base n (d ∷ acc) ≡ c ∷ rest)
unfolding digits_from
digits_from-cons zero base n d acc = (d, acc, refl)
digits_from-cons (suc f) base n d acc = elim (Bool-cases (ltb n base)) [
  | inl small ↦ (n, d ∷ acc, rw small)
  | inr large ↦
      let (c, rest, e) = digits_from-cons f base (n / base) (n % base) (d ∷ acc) in
      (c, rest, rw large e)
]

-- A number has a first digit.
pub to_digits-cons : (base n : ℕ) → (c : ℕ) × (rest : List ℕ) × (to_digits base n ≡ c ∷ rest)
unfolding to_digits digits_from
to_digits-cons base n = elim (Bool-cases (ltb n base)) [
  | inl small ↦ (n, [], rw small)
  | inr large ↦
      let (c, rest, e) = digits_from-cons n base (n / base) (n % base) [] in (c, rest, rw large e)
]

pub to_digits_one : (base n : ℕ) → n < base → to_digits base n ≡ n ∷ []
unfolding to_digits digits_from
to_digits_one base n h = let e : ltb n base ≡ true = ground arith in rw e refl

pub to_digits_two :
    (base n : ℕ) → base ≤ n → n / base < base → to_digits base n ≡ n / base ∷ n % base ∷ []
unfolding to_digits digits_from
to_digits_two base zero h k = absurd (omega arith)
to_digits_two base (suc m) h k =
    let first : ltb (suc m) base ≡ false = ground arith in
    let second : ltb (suc m / base) base ≡ true = ground arith in rw (first, second) refl
