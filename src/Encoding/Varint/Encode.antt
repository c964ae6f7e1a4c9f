-- ===== src/Encoding/Varint/Encode.antt =====
-- What the encoders write.
use fxi.Base.{
  ℕ, zero, suc, ◌+◌, ◌/◌, ◌%◌, ◌^◌, ◌≤◌, ◌<◌, ◌≡◌, bit_or, arith, List, [], ◌∷◌, ◌++◌, append_assoc,
  length, All, dec_lt,
}
use fxi.Base.Bits.{bit_or_top}
use fxi.Encoding.Varint.{IsByte, shrinks, encode_loop}
use mathlib.Core.WellFounded.{Acc}
use native.Mathlib.Nat.{pow-suc}

-- A byte whose top bit is set over the seven lowest.
pub set_top_bit : (v : ℕ) → bit_or (v % 2 ^ 8) 0x80 ≡ v % 2 ^ 7 + 2 ^ 7
set_top_bit v = omega (arith, bit_or_top 7 (v % 2 ^ 8) (omega arith))

-- The last round.
pub encode_loop_last :
    (v : ℕ) (buf : List ℕ) (w : Acc ◌<◌ v) → v < 0x80 → encode_loop v buf w ≡ buf ++ (v ∷ [])
unfolding encode_loop
encode_loop_last v buf (Acc.intro _ smaller) h = ground (arith, fits)
  where
    fits : v % 2 ^ 8 ≡ v
    fits = omega arith

-- The encoder keeps what stands in the buffer, and does not look at it.
pub encode_loop-append :
    (v : ℕ) (front buf : List ℕ) (w u : Acc ◌<◌ v)
    → encode_loop v (front ++ buf) w ≡ front ++ encode_loop v buf u
unfolding encode_loop
encode_loop-append v front buf (Acc.intro _ smaller) (Acc.intro _ smaller') = elim (dec_lt v 0x80) [
  | yes p ↦ ground (arith, append_assoc front buf (v % 2 ^ 8 ∷ []))
  | no p ↦ ground (
    arith,
    append_assoc front buf (bit_or (v % 2 ^ 8) 0x80 ∷ []),
    encode_loop-append (v / 2 ^ 7) front (buf ++ (bit_or (v % 2 ^ 8) 0x80 ∷ []))
        (smaller _ (shrinks v p)) (smaller' _ (shrinks v p)),
  )
]

-- Any other round.
pub encode_loop_more :
    (v : ℕ) (smaller : (u : ℕ) → u < v → Acc ◌<◌ u) (big : ¬ (v < 0x80))
    → encode_loop v [] (Acc.intro v smaller)
      ≡ (v % 2 ^ 7 + 2 ^ 7) ∷ encode_loop (v / 2 ^ 7) [] (smaller _ (shrinks v big))
unfolding encode_loop
encode_loop_more v smaller big = ground (
  arith,
  set_top_bit v,
  encode_loop-append (v / 2 ^ 7) ((v % 2 ^ 7 + 2 ^ 7) ∷ []) [] (smaller _ (shrinks v big))
      (smaller _ (shrinks v big)),
)

-- Every element that is written is a byte.
pub encode_loop-IsByte : (v : ℕ) (w : Acc ◌<◌ v) → All IsByte (encode_loop v [] w)
encode_loop-IsByte v (Acc.intro _ smaller) = elim (dec_lt v 0x80) [
  | yes p ↦ rw (encode_loop_last v [] (Acc.intro v smaller) p) (omega arith)
  | no p ↦
      rw (encode_loop_more v smaller p)
        (omega arith, encode_loop-IsByte (v / 2 ^ 7) (smaller _ (shrinks v p)))
]

-- At most one byte for each group of seven bits, and one at least.
pub length-encode_loop :
    (k v : ℕ) (w : Acc ◌<◌ v)
    → v < 128 ^ suc k
    → (1 ≤ length (encode_loop v [] w)) × (length (encode_loop v [] w) ≤ k + 1)
length-encode_loop zero v w h = rw (encode_loop_last v [] w (omega arith)) (omega arith)
length-encode_loop (suc k) v (Acc.intro _ smaller) h = elim (dec_lt v 0x80) [
  | yes p ↦ rw (encode_loop_last v [] (Acc.intro v smaller) p) (omega arith)
  | no p ↦ rw (encode_loop_more v smaller p) (
      omega (
        arith,
        length-encode_loop k (v / 2 ^ 7) (smaller _ (shrinks v p))
            (omega (arith, pow-suc 128 (suc k))),
      ))
]
