-- ===== src/Reader/Abi/RoundTrip.antt =====
-- lib/src/rpc.ts, `abiDecodeBytes`: decoding what the ABI encodes.
use evmfs.Prelude.{
  ℕ, zero, suc, ◌+◌, ◌-◌, ◌/◌, ◌%◌, ◌<◌, ◌≤◌, ◌≡◌, refl, sym, ◌∙◌, ap, subst, Bool, true, false,
  ◌&&◌, List, [], ◌∷◌, ◌++◌, append_assoc, append-nil, length, length-append, take, drop,
  take-append, drop-append, drop-drop, All, All-append, ltb, ◌==◌, ==_iff, ok, arith,
}
use evmfs.Prelude.Text.{strip_0x}
use evmfs.Prelude.Digits.{digit_char, leading_digits, value}
use evmfs.Prelude.ParseInt.{parse_int}
use evmfs.Reader.Abi.{
  to_uint8, hex_to_bytes, big_endian, bytes_to_int, slice, decode_payload, abi_decode_bytes,
}
use evmfs.Reader.Abi.Encode.{word, to_hex, payload, abi_encode, length-word, bound, big_endian-word}

-- The last `j` bytes of a word are the word of `j` bytes.
word_tail : (j k n : ℕ) → (high : List ℕ) × (length high ≡ k) × (word (k + j) n ≡ high ++ word j n)
unfolding word
word_tail zero k n =
    let e : k + zero ≡ k = omega arith in
    (word k n, length-word k n, rw e (sym (append-nil (word k n))))
word_tail (suc j) k n =
    let (high, len, split) = word_tail j k (n / 256) in
    let e : k + suc j ≡ suc (k + j) = omega arith in
    (
      high,
      len,
      rw e
          (ap (λ t. t ++ n % 256 ∷ []) split ∙ append_assoc high (word j (n / 256)) (n % 256 ∷ [])),
    )

last_six : (xs ys : List ℕ) → length ys ≡ 6 → bytes_to_int (xs ++ ys) ≡ big_endian 0 ys
unfolding bytes_to_int
last_six xs ys len =
    let e : length (xs ++ ys) - 6 ≡ length xs = omega (arith, length-append xs ys) in
    ap (λ k. big_endian 0 (drop k (xs ++ ys))) e ∙ ap (big_endian 0) (drop-append xs ys)

-- A word of 32 bytes is read right below 2^48.
pub bytes_to_int-word : (n : ℕ) → n < bound 6 → bytes_to_int (word 32 n) ≡ n
bytes_to_int-word n h =
    let (high, len, split) = word_tail 6 26 n in
    ap bytes_to_int split ∙ last_six high (word 6 n) (length-word 6 n) ∙ big_endian-word 6 n h

offset_fits : 32 < bound 6
unfolding bound
offset_fits = omega arith

module _ (bytes padding : List ℕ) where
  first_word : slice (payload bytes padding) 0 32 ≡ word 32 32
  unfolding payload
  first_word =
      let rest = word 32 (length bytes) ++ (bytes ++ padding) in
      subst (λ k. take k (word 32 32 ++ rest) ≡ word 32 32) (length-word 32 32)
        (take-append (word 32 32) rest)

  after_first : drop 32 (payload bytes padding) ≡ word 32 (length bytes) ++ (bytes ++ padding)
  unfolding payload
  after_first =
      let rest = word 32 (length bytes) ++ (bytes ++ padding) in
      subst (λ k. drop k (word 32 32 ++ rest) ≡ rest) (length-word 32 32)
        (drop-append (word 32 32) rest)

  second_word : slice (payload bytes padding) 32 64 ≡ word 32 (length bytes)
  second_word =
      ap (take 32) after_first
      ∙ subst (λ k. take k (word 32 (length bytes) ++ (bytes ++ padding)) ≡ word 32 (length bytes))
          (length-word 32 (length bytes)) (take-append (word 32 (length bytes)) (bytes ++ padding))

  after_second : drop 64 (payload bytes padding) ≡ bytes ++ padding
  after_second =
      sym (drop-drop 32 32 (payload bytes padding))
      ∙ ap (drop 32) after_first
      ∙ subst (λ k. drop k (word 32 (length bytes) ++ (bytes ++ padding)) ≡ bytes ++ padding)
          (length-word 32 (length bytes)) (drop-append (word 32 (length bytes)) (bytes ++ padding))

  body : slice (payload bytes padding) 64 (64 + length bytes) ≡ bytes
  body =
      let e : 64 + length bytes - 64 ≡ length bytes = omega arith in
      ap (λ k. take k (drop 64 (payload bytes padding))) e
      ∙ ap (take (length bytes)) after_second
      ∙ take-append bytes padding

  length-payload : length (payload bytes padding) ≡ 64 + length bytes + length padding
  unfolding payload
  length-payload = omega (
    arith,
    length-append (word 32 32) (word 32 (length bytes) ++ (bytes ++ padding)),
    length-append (word 32 (length bytes)) (bytes ++ padding),
    length-append bytes padding,
    length-word 32 32,
    length-word 32 (length bytes),
  )

  decode-payload : length bytes < bound 6 → decode_payload (payload bytes padding) ≡ ok bytes
  unfolding decode_payload
  decode-payload h =
      let long : ltb (length (payload bytes padding)) 64 ≡ false = ground (arith, length-payload) in
      let offset : bytes_to_int (slice (payload bytes padding) 0 32) ≡ 32 =
        ap bytes_to_int first_word ∙ bytes_to_int-word 32 offset_fits in
      let size : bytes_to_int (slice (payload bytes padding) 32 64) ≡ length bytes =
        ap bytes_to_int second_word ∙ bytes_to_int-word (length bytes) h in
      let whole : ltb (length (payload bytes padding)) (64 + length bytes) ≡ false =
        ground (arith, length-payload) in
      rw (long, offset, size, whole) (ap ok body)

read_back : ℕ → ℕ
read_back b = to_uint8 (parse_int 16 (digit_char (b / 16) ∷ digit_char (b % 16) ∷ []))

-- The `left` numbers from `b` are read back as they are.
come_back : ℕ → ℕ → Bool
come_back zero b = true
come_back (suc left) b = come_back left (suc b) && (read_back b == b)

come_back_sound :
    (left b x : ℕ) → come_back left b ≡ true → b ≤ x → x < b + left → (read_back x == x) ≡ true
unfolding come_back
come_back_sound zero b x checked low high = absurd (omega arith)
come_back_sound (suc left) b x checked low high = ground (arith, come_back_sound left (suc b) x)

byte_table : come_back 256 0 ≡ true
unfolding come_back read_back to_uint8 parse_int digit_char leading_digits value
byte_table = refl

read_back-eq :
    (b : ℕ) → b < 256 → to_uint8 (parse_int 16 (digit_char (b / 16) ∷ digit_char (b % 16) ∷ [])) ≡ b
unfolding read_back
read_back-eq b lt =
    (==_iff (read_back b) b).0 (come_back_sound 256 0 b byte_table (omega arith) (omega arith))

pub hex_to_bytes-to_hex :
    (bytes : List ℕ) → All (λ b. b < 256) bytes → hex_to_bytes (to_hex bytes) ≡ bytes
unfolding hex_to_bytes to_hex
hex_to_bytes-to_hex [] h = refl
hex_to_bytes-to_hex (b ∷ bytes) (lt, h) =
    ap (λ t. t ∷ hex_to_bytes (to_hex bytes)) (read_back-eq b lt)
    ∙ ap (λ t. b ∷ t) (hex_to_bytes-to_hex bytes h)

word-bytes : (k n : ℕ) → All (λ b. b < 256) (word k n)
unfolding word
word-bytes zero n = tt
word-bytes (suc k) n =
    All-append (λ b. b < 256) (word k (n / 256)) (n % 256 ∷ []) (word-bytes k (n / 256))
      (omega arith, tt)

-- Decoding the encoding of fewer than 2^48 bytes, with whatever bytes pad it, gives the bytes.
pub abi_decode_bytes-abi_encode :
    (bytes padding : List ℕ)
    → All (λ b. b < 256) bytes
    → All (λ b. b < 256) padding
    → length bytes < bound 6
    → abi_decode_bytes (abi_encode bytes padding) ≡ ok bytes
unfolding abi_decode_bytes abi_encode strip_0x
abi_decode_bytes-abi_encode bytes padding small pad h =
    ap decode_payload (
      hex_to_bytes-to_hex (payload bytes padding) (
        unfold payload in
        All-append (λ b. b < 256) (word 32 32) _ (word-bytes 32 32)
          (All-append (λ b. b < 256) (word 32 (length bytes)) _ (word-bytes 32 (length bytes))
            (All-append (λ b. b < 256) bytes padding small pad))))
    ∙ decode-payload bytes padding h
