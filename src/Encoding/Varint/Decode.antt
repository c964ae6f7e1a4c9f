-- ===== src/Encoding/Varint/Decode.antt =====
-- What the decoders read: back what an encoder wrote, and on any bytes a value that fits the word.
use fxi.Base.{
  ℕ, zero, suc, ◌+◌, ◌*◌, ◌/◌, ◌%◌, ◌^◌, ◌<◌, ◌≡◌, ap, arith, List, [], ◌∷◌, ◌++◌, some, length,
  dec_lt,
}
use fxi.Base.Bits.{two_pow, two_pow_pos, bit_or_high, bit_and_ones, bit_and_single}
use fxi.Encoding.Varint.{shrinks, encode_loop, decode_loop}
use fxi.Encoding.Varint.Encode.{encode_loop_last, encode_loop_more}
use mathlib.Core.WellFounded.{Acc}
use native.Mathlib.Nat.{mod-eq_of_lt}
use native.Mathlib.Numerals.{towards_suc}

-- 2 ^ (s + 7) in the form that `omega` reads.
pub shift_seven : (s : ℕ) → 2 ^ (s + 7) ≡ 2 ^ s * 128
shift_seven s = simp towards_suc (omega (arith, two_pow s, two_pow (suc s), two_pow (suc (suc s))))

pub split_groups : (v p : ℕ) → v * p ≡ v % 128 * p + v / 128 * (p * 128)
split_groups v p = omega (arith, ap (λ (t : ℕ). t * p) parts)
  where
    parts : v ≡ v % 128 + v / 128 * 128
    parts = omega arith

pow_reflects_lt : (a b : ℕ) → 2 ^ a < 2 ^ b → a < b
pow_reflects_lt zero zero h = absurd (omega arith)
pow_reflects_lt zero (suc b) h = omega arith
pow_reflects_lt (suc a) zero h = absurd (omega (arith, two_pow a, two_pow_pos a))
pow_reflects_lt (suc a) (suc b) h =
    omega (arith, pow_reflects_lt a b (omega (arith, two_pow a, two_pow b)))

-- One round on a last byte, and on one with its top bit set over the group g.
module _ (width i result shift : ℕ) (rest : List ℕ) (room : shift < width)
    (low : result < 2 ^ shift) where
  decode_loop_last :
      (g : ℕ)
      → g < 128
      → g * 2 ^ shift < 2 ^ width
      → decode_loop width (g ∷ rest) i result shift ≡ some (result + g * 2 ^ shift, i + 1)
  unfolding decode_loop
  decode_loop_last g small fits = ground (
    arith,
    bit_and_ones 7 g,
    bit_and_single 7 g,
    mod-eq_of_lt fits,
    bit_or_high shift result g low,
  )

  decode_loop_more :
      (g : ℕ)
      → g < 128
      → g * 2 ^ shift < 2 ^ width
      → decode_loop width ((g + 128) ∷ rest) i result shift
        ≡ decode_loop width rest (i + 1) (result + g * 2 ^ shift) (shift + 7)
  unfolding decode_loop
  decode_loop_more g small fits = ground (
    arith,
    bit_and_ones 7 (g + 128),
    bit_and_single 7 (g + 128),
    mod-eq_of_lt fits,
    bit_or_high shift result g low,
  )

-- What is left of the value after one group, with the words of the next round in range.
module _ (v width result shift : ℕ) (fits : result + v * 2 ^ shift < 2 ^ width) where
  group_fits : v % 128 * 2 ^ shift < 2 ^ width
  group_fits = omega (arith, split_groups v (2 ^ shift))

  module _ (low : result < 2 ^ shift) where
    next_low : result + v % 128 * 2 ^ shift < 2 ^ (shift + 7)
    next_low = grind (arith, shift_seven shift)

  next_value : result + v % 128 * 2 ^ shift + v / 128 * 2 ^ (shift + 7) ≡ result + v * 2 ^ shift
  next_value =
      omega (arith, split_groups v (2 ^ shift), ap (λ (t : ℕ). v / 128 * t) (shift_seven shift))

  next_room : ¬ (v < 128) → shift + 7 < width
  next_room big = pow_reflects_lt (shift + 7) width (grind (arith, next_value))

-- The decoder reads what the encoder wrote, from any point of the word.
pub decode_loop-encode_loop :
    (v : ℕ) (w : Acc ◌<◌ v) (width : ℕ) (rest : List ℕ) (i result shift : ℕ)
    → shift < width
    → result < 2 ^ shift
    → result + v * 2 ^ shift < 2 ^ width
    → decode_loop width (encode_loop v [] w ++ rest) i result shift
      ≡ some (result + v * 2 ^ shift, i + length (encode_loop v [] w))
decode_loop-encode_loop v (Acc.intro _ smaller) width rest i result shift room low fits =
    elim (dec_lt v 128) [
      | yes p ↦
          rw (encode_loop_last v [] _ p)
            (decode_loop_last width i result shift rest room low v p (omega arith))
      | no p ↦ ground (
        arith,
        encode_loop_more v smaller p,
        decode_loop_more width i result shift
            (encode_loop (v / 128) [] (smaller _ (shrinks v p)) ++ rest) room low (v % 128)
            (omega arith) (group_fits v width result shift fits),
        decode_loop-encode_loop (v / 128) (smaller _ (shrinks v p)) width rest (i + 1)
            (result + v % 128 * 2 ^ shift) (shift + 7) (next_room v width result shift fits p)
            (next_low v width result shift fits low)
            (rw (next_value v width result shift fits) fits),
        next_value v width result shift fits,
      )
    ]
