-- ===== src/Reader/Abi.antt =====
-- lib/src/rpc.ts: decoding the data of a Store event.
pub mod Encode
pub mod RoundTrip
use evmfs.Prelude.{
  ℕ, zero, suc, ◌+◌, ◌-◌, ◌*◌, ◌/◌, ◌%◌, Bool, true, false, List, [], ◌∷◌, length, take, drop, ltb,
  ◌==◌, Result, ok, err, if◌then◌else◌,
}
use evmfs.Prelude.Text.{Text, strip_0x}
use evmfs.Prelude.ParseInt.{Parsed, nan, number, negative, parse_int}

-- What assigning a number to an element of a Uint8Array stores.
unfoldable pub to_uint8 : Parsed → ℕ
to_uint8 nan = 0
to_uint8 (number n) = n % 256
to_uint8 (negative n) = (256 - n % 256) % 256

-- Two characters make a byte; of an odd length the last character falls outside the array.
unfoldable pub hex_to_bytes : Text → List ℕ
unfolding to_uint8
hex_to_bytes [] = []
hex_to_bytes (a ∷ []) = []
hex_to_bytes (a ∷ b ∷ hex) = to_uint8 (parse_int 16 (a ∷ b ∷ [])) ∷ hex_to_bytes hex

unfoldable pub big_endian : ℕ → List ℕ → ℕ
big_endian n [] = n
big_endian n (b ∷ bytes) = big_endian (n * 256 + b) bytes

-- Only the last six bytes are read.
unfoldable pub bytes_to_int : List ℕ → ℕ
unfolding big_endian
bytes_to_int bytes = big_endian 0 (drop (length bytes - 6) bytes)

pub data AbiError : Type 0 where
  too_short : ℕ → AbiError
  unexpected_offset : ℕ → AbiError
  truncated : ℕ → ℕ → AbiError

-- `data.subarray(from, to)`
abbrev pub slice : List ℕ → ℕ → ℕ → List ℕ
slice bytes from to = take (to - from) (drop from bytes)

-- The checks of `abiDecodeBytes` on the bytes.
unfoldable pub decode_payload : List ℕ → Result AbiError (List ℕ)
decode_payload payload =
    if ltb (length payload) 64
    then err (too_short (length payload))
    else (let offset = bytes_to_int (slice payload 0 32) in
        if offset == 32
        then (let size = bytes_to_int (slice payload 32 64) in
            if ltb (length payload) (64 + size)
            then err (truncated (64 + size) (length payload))
            else ok (slice payload 64 (64 + size)))
        else err (unexpected_offset offset))

unfoldable pub abi_decode_bytes : Text → Result AbiError (List ℕ)
unfolding decode_payload
abi_decode_bytes hex_data = decode_payload (hex_to_bytes (strip_0x hex_data))
