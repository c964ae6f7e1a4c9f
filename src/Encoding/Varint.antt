-- ===== src/Encoding/Varint.antt =====
-- src/utils/encoding.rs, encode_varint to decode_varint_u64: integers in groups of seven bits, lowest
-- group first, the top bit set on every byte but the last. A buffer is the list of its bytes.
pub mod Encode
pub mod Decode
pub mod RoundTrip
use fxi.Base.{
  ℕ, ◌+◌, ◌*◌, ◌/◌, ◌%◌, ◌^◌, ◌≤◌, ◌<◌, bit_and, bit_or, arith, Bool, Option, none, some, List, [],
  ◌∷◌, ◌++◌, length, drop, ltb, leb, ◌==◌, if◌then◌else◌, dite, dec_lt,
}
use fxi.Base.Order.{lt_wf}
use mathlib.Core.WellFounded.{Acc}

abbrev pub IsByte : ℕ → Type 0
IsByte b = b < 2 ^ 8

abbrev pub IsU32 : ℕ → Type 0
IsU32 v = v < 2 ^ 32

abbrev pub IsU64 : ℕ → Type 0
IsU64 v = v < 2 ^ 64

pub shrinks : (v : ℕ) → ¬ (v < 0x80) → v / 2 ^ 7 < v
shrinks v h = omega arith

-- The loop that both encoders have: `value as u8` is `value % 2 ^ 8`, and `value >>= 7` divides.
unfoldable pub encode_loop : (value : ℕ) → List ℕ → Acc ◌<◌ value → List ℕ
encode_loop value buf (Acc.intro _ smaller) =
    dite (dec_lt value 0x80) (λ _. buf ++ (value % 2 ^ 8 ∷ []))
      (λ big.
        encode_loop (value / 2 ^ 7) (buf ++ (bit_or (value % 2 ^ 8) 0x80 ∷ []))
          (smaller _ (shrinks value big)))

-- `buf` is the vector that the bytes are pushed to.
unfoldable pub encode_varint : ℕ → List ℕ → List ℕ
encode_varint value buf = encode_loop value buf (lt_wf.apply value)

unfoldable pub encode_varint_u64 : ℕ → List ℕ → List ℕ
encode_varint_u64 value buf = encode_loop value buf (lt_wf.apply value)

-- The loop that both decoders have, at a word of `width` bits. The list is what the iterator has
-- not reached, and `i` the index of its first byte.
unfoldable pub decode_loop : (width : ℕ) → List ℕ → (i result shift : ℕ) → Option (ℕ × ℕ)
decode_loop width [] i result shift = none
decode_loop width (byte ∷ rest) i result shift =
    let result' = bit_or result (bit_and byte 0x7f * 2 ^ shift % 2 ^ width) in
    let more = decode_loop width rest (i + 1) result' (shift + 7) in
    if leb width shift then none else if bit_and byte 0x80 == 0 then some (result', i + 1) else more

unfoldable pub decode_varint_slow : List ℕ → ℕ → Option (ℕ × ℕ)
decode_varint_slow buf first = decode_loop 32 (drop 1 buf) 1 (bit_and first 0x7f) 7

-- The value and the number of bytes consumed.
unfoldable pub decode_varint : List ℕ → Option (ℕ × ℕ)
decode_varint [] = none
decode_varint (first ∷ rest) =
    if ltb first 0x80 then some (first, 1) else decode_varint_slow (first ∷ rest) first

unfoldable pub decode_varint_u64 : List ℕ → Option (ℕ × ℕ)
decode_varint_u64 buf = decode_loop 64 buf 0 0 0
