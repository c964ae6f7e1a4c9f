-- ===== src/Encoding/Varint/RoundTrip.antt =====
-- The codec as its callers use it: `decode_varint` and `decode_varint_u64` against their encoders.
use fxi.Base.{
  ℕ, ◌+◌, ◌*◌, ◌%◌, ◌^◌, ◌≤◌, ◌<◌, ◌≡◌, refl, sym, ap, ◌∙◌, bit_or, bit_and, arith, List, [], ◌∷◌,
  ◌++◌, none, some, length, length-append, append-nil, All, All-append, All-append_front,
  Option-cases, inl, inr,
}
use fxi.Base.Order.{lt_wf}
use fxi.Base.Bits.{zero-bit_or, bit_and_ones, bit_and_single, bit_or-lt, two_pow_pos}
use fxi.Encoding.Varint.{IsByte, IsU32, IsU64, encode_loop, encode_varint, encode_varint_u64}
use fxi.Encoding.Varint.{decode_loop, decode_varint_slow, decode_varint, decode_varint_u64}
use fxi.Encoding.Varint.Encode.{encode_loop-append, encode_loop-IsByte, length-encode_loop}
use fxi.Encoding.Varint.Decode.{decode_loop-encode_loop}
use native.Mathlib.Nat.{mod-lt}

pub encode_varint-append : (v : ℕ) (buf : List ℕ) → encode_varint v buf ≡ buf ++ encode_varint v []
unfolding encode_varint
encode_varint-append v buf =
    rw (append-nil buf) at (encode_loop-append v buf [] (lt_wf.apply v) (lt_wf.apply v))

pub encode_varint-IsByte : (v : ℕ) → All IsByte (encode_varint v [])
unfolding encode_varint
encode_varint-IsByte v = encode_loop-IsByte v (lt_wf.apply v)

-- A word below 2 ^ 32 takes one to five bytes.
pub length-encode_varint :
    (v : ℕ) → IsU32 v → (1 ≤ length (encode_varint v [])) × (length (encode_varint v []) ≤ 5)
unfolding encode_varint
length-encode_varint v h = length-encode_loop 4 v (lt_wf.apply v) (omega arith)

-- The fast path for one byte and the slow path behind it are the plain loop over the whole buffer.
pub decode_varint-decode_loop :
    (buf : List ℕ) → All IsByte buf → decode_varint buf ≡ decode_loop 32 buf 0 0 0
unfolding decode_varint decode_varint_slow decode_loop
decode_varint-decode_loop [] h = refl
decode_varint-decode_loop (first ∷ rest) (h, _) = ground (
  arith,
  zero-bit_or (bit_and first 127 * 1 % 2 ^ 32),
  bit_and_ones 7 first,
  bit_and_single 7 first,
)

pub decode_loop_takes :
    (width : ℕ) (buf : List ℕ) (i result shift v n : ℕ)
    → decode_loop width buf i result shift ≡ some (v, n)
    → result < 2 ^ width
    → shift ≡ 7 * i
    → (v < 2 ^ width) × (i < n) × (n ≤ i + length buf) × (7 * n < width + 7)
unfolding decode_loop
decode_loop_takes width [] i result shift v n e h hs = ground arith
decode_loop_takes width (b ∷ bs) i result shift v n e h hs = ground (
  arith,
  bit_or-lt width result (bit_and b 0x7f * 2 ^ shift % 2 ^ width) h (mod-lt _ (two_pow_pos width)),
  decode_loop_takes width bs (i + 1) (bit_or result (bit_and b 0x7f * 2 ^ shift % 2 ^ width))
      (shift + 7) v n,
)

-- Bytes behind what was read do not change the result.
pub decode_loop-append :
    (width : ℕ) (buf more : List ℕ) (i result shift v n : ℕ)
    → decode_loop width buf i result shift ≡ some (v, n)
    → decode_loop width (buf ++ more) i result shift ≡ some (v, n)
unfolding decode_loop
decode_loop-append width [] more i result shift v n e = cc
decode_loop-append width (b ∷ bs) more i result shift v n e = ground (
  arith,
  decode_loop-append width bs more (i + 1) (bit_or result (bit_and b 0x7f * 2 ^ shift % 2 ^ width))
      (shift + 7) v n,
)

encoded-IsByte : (v : ℕ) (rest : List ℕ) → All IsByte rest → All IsByte (encode_varint v [] ++ rest)
encoded-IsByte v rest h = All-append IsByte _ _ (encode_varint-IsByte v) h

decode_whole :
    (v width : ℕ) (rest : List ℕ)
    → 0 < width
    → v < 2 ^ width
    → decode_loop width (encode_loop v [] (lt_wf.apply v) ++ rest) 0 0 0
      ≡ some (v, length (encode_loop v [] (lt_wf.apply v)))
decode_whole v width rest room h = ground (
  arith,
  decode_loop-encode_loop v (lt_wf.apply v) width rest 0 0 0 room (omega arith) (omega arith),
)

-- For every u32 and every bytes behind it, `decode_varint` returns the value that `encode_varint`
-- wrote, with the number of bytes that it wrote.
pub decode_varint-encode_varint :
    (v : ℕ) (rest : List ℕ)
    → IsU32 v
    → All IsByte rest
    → decode_varint (encode_varint v [] ++ rest) ≡ some (v, length (encode_varint v []))
decode_varint-encode_varint v rest h bytes =
    decode_varint-decode_loop _ (encoded-IsByte v rest bytes)
    ∙ unfold encode_varint in decode_whole v 32 rest (omega arith) h

-- The same for every u64.
pub decode_varint_u64-encode_varint_u64 :
    (v : ℕ) (rest : List ℕ)
    → IsU64 v
    → decode_varint_u64 (encode_varint_u64 v [] ++ rest) ≡ some (v, length (encode_varint_u64 v []))
unfolding decode_varint_u64 encode_varint_u64
decode_varint_u64-encode_varint_u64 v rest h = decode_whole v 64 rest (omega arith) h

-- On any bytes, well formed or not, a value that `decode_varint` returns is a u32, and it consumed
-- between one and five bytes, no more than the buffer has.
pub decode_varint_takes :
    (buf : List ℕ) (v n : ℕ)
    → All IsByte buf
    → decode_varint buf ≡ some (v, n)
    → IsU32 v × (1 ≤ n) × (n ≤ 5) × (n ≤ length buf)
decode_varint_takes buf v n bytes e = omega (
  arith,
  decode_loop_takes 32 buf 0 0 0 v n (sym (decode_varint-decode_loop buf bytes) ∙ e) (omega arith)
      (omega arith),
)

-- A buffer that ends inside an encoding is refused: `decode_varint` returns nothing on every
-- proper prefix of what `encode_varint` wrote for a u32.
pub decode_varint_truncated :
    (v : ℕ) (front : List ℕ) (b : ℕ) (back : List ℕ)
    → IsU32 v
    → encode_varint v [] ≡ front ++ (b ∷ back)
    → decode_varint front ≡ none
decode_varint_truncated v front b back h e = elim (Option-cases (decode_varint front)) [
  | inl nothing ↦ nothing
  | inr ((u, n), found) ↦
      absurd (
        omega
          (arith, whole u n found, takes u n found, ap length e, length-append front (b ∷ back)))
]
  where
    bytes : All IsByte (front ++ (b ∷ back))
    bytes = rw e at (encode_varint-IsByte v)

    takes : (u n : ℕ) → decode_varint front ≡ some (u, n) → n ≤ length front
    takes u n found =
        (decode_varint_takes front u n (All-append_front IsByte front _ bytes) found).3

    -- Found on the prefix, a value would be found on the whole encoding with the same length.
    whole : (u n : ℕ) → decode_varint front ≡ some (u, n) → n ≡ length (encode_varint v [])
    whole u n found = ground (
      arith,
      append-nil (encode_varint v []),
      decode_varint-encode_varint v [] h tt,
      decode_varint-decode_loop front (All-append_front IsByte front _ bytes),
      decode_varint-decode_loop (front ++ (b ∷ back)) bytes,
      decode_loop-append 32 front (b ∷ back) 0 0 0 u n,
    )
