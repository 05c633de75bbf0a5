-- ===== src/Reader/Keccak/Hex.antt =====
-- `bytesToHex` of lib/src/keccak256.ts beside `hexToBytes` of lib/src/rpc.ts.
use evmfs.Prelude.{
  ℕ, ◌/◌, ◌%◌, ◌<◌, ◌≤◌, ◌≡◌, refl, ap, ap₂, ◌∙◌, inl, inr, List, [], ◌∷◌, ◌++◌, All, ltb,
  Bool-cases, arith,
}
use evmfs.Prelude.Text.{strip_0x}
use evmfs.Prelude.Digits.{digit_char, to_base, to_digits_one, to_digits_two}
use evmfs.Reader.Abi.{hex_to_bytes}
use evmfs.Reader.Abi.Encode.{to_hex}
use evmfs.Reader.Abi.RoundTrip.{hex_to_bytes-to_hex}
use evmfs.Reader.Keccak.{pad_start, hex_digits, bytes_to_hex}

byte_hex :
    (b : ℕ) → b < 256 → pad_start (to_base 16 b) ≡ digit_char (b / 16) ∷ digit_char (b % 16) ∷ []
unfolding to_base
byte_hex b h = elim (Bool-cases (ltb b 16)) [
  | inl small ↦
      let low : b < 16 = ground arith in
      let e : b / 16 ≡ 0 = omega arith in
      let f : b % 16 ≡ b = omega arith in rw (to_digits_one 16 b low, e, f) refl
  | inr large ↦ let high : 16 ≤ b = ground arith in rw (to_digits_two 16 b high (omega arith)) refl
]

hex_digits-to_hex : (bytes : List ℕ) → All (λ b. b < 256) bytes → hex_digits bytes ≡ to_hex bytes
unfolding hex_digits to_hex
hex_digits-to_hex [] h = refl
hex_digits-to_hex (b ∷ bytes) (lt, h) = ap₂ ◌++◌ (byte_hex b lt) (hex_digits-to_hex bytes h)

-- The hexadecimal text is read as the bytes.
pub hex_to_bytes-bytes_to_hex :
    (bytes : List ℕ)
    → All (λ b. b < 256) bytes
    → hex_to_bytes (strip_0x (bytes_to_hex bytes)) ≡ bytes
unfolding bytes_to_hex strip_0x
hex_to_bytes-bytes_to_hex bytes h =
    ap hex_to_bytes (hex_digits-to_hex bytes h) ∙ hex_to_bytes-to_hex bytes h
