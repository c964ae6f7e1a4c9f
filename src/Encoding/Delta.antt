-- ===== src/Encoding/Delta.antt =====
-- src/utils/encoding.rs, delta_encode to delta_decode_intersect: posting lists as varints of the
-- differences. A loop over `pos < buf.len()` recurs on fuel over the bytes from `pos` on, and gives
-- nothing when the fuel runs out; the number of bytes is enough.
pub mod Values
pub mod RoundTrip
pub mod Sets
use fxi.Base.{
  ℕ, zero, suc, ◌+◌, ◌-◌, ◌%◌, ◌^◌, Option, none, some, List, [], ◌∷◌, ◌++◌, length, drop, ltb,
  if◌then◌else◌, min,
}
use fxi.Encoding.Varint.{encode_varint, decode_varint}
use fxi.Encoding.Bitmap.{Bitmap}

-- `value - prev` on u32 wraps below 0 in a release build.
abbrev pub sub_u32 : ℕ → ℕ → ℕ
sub_u32 a b = (a + 2 ^ 32 - b) % 2 ^ 32

abbrev pub saturating_add : ℕ → ℕ → ℕ
saturating_add a b = min (a + b) (2 ^ 32 - 1)

unfoldable pub delta_encode_loop : (prev : ℕ) → List ℕ → List ℕ → List ℕ
delta_encode_loop prev [] buf = buf
delta_encode_loop prev (value ∷ values) buf =
    delta_encode_loop value values (encode_varint (sub_u32 value prev) buf)

unfoldable pub delta_encode : List ℕ → List ℕ → List ℕ
unfolding delta_encode_loop
delta_encode values buf = delta_encode_loop 0 values buf

unfoldable pub delta_decode_loop : (fuel : ℕ) → List ℕ → (prev : ℕ) → List ℕ → Option (List ℕ)
delta_decode_loop fuel [] prev result = some result
delta_decode_loop zero (b ∷ bs) prev result = none
delta_decode_loop (suc fuel) (b ∷ bs) prev result = elim (decode_varint (b ∷ bs)) [
  | none ↦ some result
  | some (delta, consumed) ↦
      let prev' = saturating_add prev delta in
      delta_decode_loop fuel (drop consumed (b ∷ bs)) prev' (result ++ (prev' ∷ []))
]

unfoldable pub delta_decode : List ℕ → Option (List ℕ)
unfolding delta_decode_loop
delta_decode buf = delta_decode_loop (length buf) buf 0 []

module _ (roaring : Bitmap) where
  open roaring use {B, new, contains, max_of, try_push}

  unfoldable pub delta_decode_bitmap_loop : (fuel : ℕ) → List ℕ → (prev : ℕ) → B → Option B
  delta_decode_bitmap_loop fuel [] prev bitmap = some bitmap
  delta_decode_bitmap_loop zero (b ∷ bs) prev bitmap = none
  delta_decode_bitmap_loop (suc fuel) (b ∷ bs) prev bitmap = elim (decode_varint (b ∷ bs)) [
    | none ↦ some bitmap
    | some (delta, consumed) ↦
        let prev' = saturating_add prev delta in
        delta_decode_bitmap_loop fuel (drop consumed (b ∷ bs)) prev' (try_push bitmap prev')
  ]

  unfoldable pub delta_decode_bitmap : List ℕ → Option B
  unfolding delta_decode_bitmap_loop
  delta_decode_bitmap buf = delta_decode_bitmap_loop (length buf) buf 0 new

  -- Once a value is above the filter's largest, the loop ends.
  unfoldable pub delta_decode_intersect_loop :
      (filter : B) (max : ℕ) (fuel : ℕ) → List ℕ → (prev : ℕ) → B → Option B
  delta_decode_intersect_loop filter max fuel [] prev bitmap = some bitmap
  delta_decode_intersect_loop filter max zero (b ∷ bs) prev bitmap = none
  delta_decode_intersect_loop filter max (suc fuel) (b ∷ bs) prev bitmap =
      elim (decode_varint (b ∷ bs)) [
        | none ↦ some bitmap
        | some (delta, consumed) ↦
            let prev' = saturating_add prev delta in
            let kept = if contains filter prev' then try_push bitmap prev' else bitmap in
            let more =
              delta_decode_intersect_loop filter max fuel (drop consumed (b ∷ bs)) prev' kept in
            if ltb max prev' then some bitmap else more
      ]

  unfoldable pub delta_decode_intersect : List ℕ → B → Option B
  unfolding delta_decode_intersect_loop
  delta_decode_intersect buf filter = elim (max_of filter) [
    | none ↦ some new
    | some max ↦ delta_decode_intersect_loop filter max (length buf) buf 0 new
  ]
