-- ===== src/Encoding/Delta/Sets.antt =====
-- The decoders that fill a bitmap hold the values that `delta_decode` returns.
use fxi.Base.{
  ℕ, zero, suc, ◌≤◌, ◌<◌, ◌≡◌, refl, ◌∙◌, arith, Bool, true, false, ◌||◌, ◌&&◌, none, some, List,
  [], ◌∷◌, length, drop, ltb, ◌==◌, if◌then◌else◌, Bool-cases, inl, inr, Option-cases, ltb→lt,
  false≢true,
}
use fxi.Encoding.Varint.{IsU32, decode_varint}
use fxi.Encoding.Bitmap.{Bitmap}
use fxi.Encoding.Delta.{saturating_add, delta_decode, delta_decode_bitmap_loop, delta_decode_bitmap}
use fxi.Encoding.Delta.{delta_decode_intersect_loop, delta_decode_intersect}
use fxi.Encoding.Delta.Values.{
  Decodes, stop, next, IsAscending, decode_varint_empty, decode_varint_moves, delta_decode-Decodes,
  Decodes-IsAscending, Decodes-total,
}

-- x is among the values.
abbrev pub elem : ℕ → List ℕ → Bool
elem x [] = false
elem x (v ∷ vs) = x == v || elem x vs

module _ (roaring : Bitmap) where
  open roaring use {B, new, contains, max_of, try_push, max_of-try_push, contains-try_push}

  -- No element of the bitmap is above `prev`.
  abbrev IsBelow : B → ℕ → Type 0
  IsBelow b prev = (m : ℕ) → max_of b ≡ some m → m ≤ prev

  -- Pushing a value that is not below any element adds it, whether it is there or not.
  contains-try_push_top :
      (b : B) (v x : ℕ) → IsBelow b v → contains (try_push b v) x ≡ (x == v || contains b x)
  contains-try_push_top b v x h = elim (Option-cases (max_of b)) [
    | inl e ↦ ground (arith, contains-try_push b v x)
    | inr (m, e) ↦ ground (arith, contains-try_push b v x, h m e, roaring.contains-max b m e)
  ]

  try_push-IsBelow : (b : B) (prev v : ℕ) → IsBelow b prev → prev ≤ v → IsBelow (try_push b v) v
  try_push-IsBelow b prev v h le m e = elim (Option-cases (max_of b)) [
    | inl none_yet ↦ ground (arith, max_of-try_push b v)
    | inr (k, top) ↦ ground (arith, max_of-try_push b v, h k top)
  ]

  -- The rounds of the loops.
  bitmap_stop :
      (fuel : ℕ) (rest : List ℕ) (prev : ℕ) (b : B)
      → decode_varint rest ≡ none
      → length rest ≤ fuel
      → delta_decode_bitmap_loop roaring fuel rest prev b ≡ some b
  unfolding delta_decode_bitmap_loop
  bitmap_stop fuel [] prev b e h = refl
  bitmap_stop zero (c ∷ cs) prev b e h = absurd (omega arith)
  bitmap_stop (suc fuel) (c ∷ cs) prev b e h = rw (e, delta_decode_bitmap_loop)

  bitmap_next :
      (fuel : ℕ) (rest : List ℕ) (prev : ℕ) (b : B) {delta consumed : ℕ}
      → decode_varint rest ≡ some (delta, consumed)
      → delta_decode_bitmap_loop roaring (suc fuel) rest prev b
        ≡ delta_decode_bitmap_loop roaring fuel
            (drop consumed rest)
            (saturating_add prev delta)
            (try_push b (saturating_add prev delta))
  unfolding delta_decode_bitmap_loop
  bitmap_next fuel [] prev b e = cc decode_varint_empty
  bitmap_next fuel (c ∷ cs) prev b e = rw (e, delta_decode_bitmap_loop)

  bitmap-Decodes :
      {rest : List ℕ} {prev : ℕ} {values : List ℕ} (d : Decodes rest prev values)
      → (fuel : ℕ) (b : B) → IsU32 prev
      → IsBelow b prev
      → length rest ≤ fuel
      → (b' : B) × (delta_decode_bitmap_loop roaring fuel rest prev b ≡ some b')
        × ((x : ℕ) → contains b' x ≡ (contains b x || elem x values))
  bitmap-Decodes {rest} {prev} (stop e) fuel b u below h =
      (b, bitmap_stop fuel rest prev b e h, λ x. ground arith)
  bitmap-Decodes {rest} (next delta consumed e d) zero b u below h =
      absurd (omega (arith, decode_varint_moves rest delta consumed e))
  bitmap-Decodes {rest} {prev} (next delta consumed e d) (suc fuel) b u below h =
      let v : ℕ = saturating_add prev delta in
      let (b', run, same) =
        bitmap-Decodes d fuel (try_push b v) (omega arith)
          (try_push-IsBelow b prev v below (omega arith))
          (omega (arith, decode_varint_moves rest delta consumed e)) in
      (
        b',
        bitmap_next fuel rest prev b e ∙ run,
        λ x.
            ground
              (arith, same x, contains-try_push_top b v x (λ m top. omega (arith, below m top))),
      )

  -- On any bytes `delta_decode_bitmap` and `delta_decode` both end, and the bitmap holds exactly
  -- the values of the list.
  pub delta_decode_bitmap-delta_decode :
      (buf : List ℕ)
      → (bitmap : B) × (values : List ℕ) × (delta_decode_bitmap roaring buf ≡ some bitmap)
        × (delta_decode buf ≡ some values)
        × ((x : ℕ) → contains bitmap x ≡ elem x values)
  unfolding delta_decode_bitmap
  delta_decode_bitmap-delta_decode buf =
      let (values, d) = Decodes-total buf 0 in
      let (b, run, same) =
        bitmap-Decodes d (length buf) new (omega arith) (λ m e. cc roaring.max_of-new)
          (omega arith) in
      (
        b,
        values,
        run,
        delta_decode-Decodes buf values d,
        λ x. ground (arith, same x, roaring.contains-new x),
      )

le-elem : (prev x : ℕ) (values : List ℕ) → IsAscending prev values → elem x values ≡ true → prev ≤ x
le-elem prev x [] h e = absurd (false≢true e)
le-elem prev x (v ∷ vs) (le, _, h) e = ground (arith, le-elem v x vs h)

module _ (roaring : Bitmap) (filter : roaring.B) (max : ℕ)
    (top : roaring.max_of filter ≡ some max) where
  open roaring use {B, contains, max_of, try_push}

  intersect_stop :
      (fuel : ℕ) (rest : List ℕ) (prev : ℕ) (b : B)
      → decode_varint rest ≡ none
      → length rest ≤ fuel
      → delta_decode_intersect_loop roaring filter max fuel rest prev b ≡ some b
  unfolding delta_decode_intersect_loop
  intersect_stop fuel [] prev b e h = refl
  intersect_stop zero (c ∷ cs) prev b e h = absurd (omega arith)
  intersect_stop (suc fuel) (c ∷ cs) prev b e h = rw (e, delta_decode_intersect_loop)

  intersect_next :
      (fuel : ℕ) (rest : List ℕ) (prev : ℕ) (b : B) (delta consumed : ℕ)
      → decode_varint rest ≡ some (delta, consumed)
      → delta_decode_intersect_loop roaring filter max (suc fuel) rest prev b ≡ (
          if ltb max (saturating_add prev delta)
          then some b
          else delta_decode_intersect_loop roaring filter max fuel
              (drop consumed rest)
              (saturating_add prev delta)
              (if contains filter (saturating_add prev delta)
                then try_push b (saturating_add prev delta)
                else b))
  unfolding delta_decode_intersect_loop
  intersect_next fuel [] prev b delta consumed e = cc decode_varint_empty
  intersect_next fuel (c ∷ cs) prev b delta consumed e = rw (e, delta_decode_intersect_loop)

  -- What one value adds.
  kept : B → ℕ → B
  kept b v = if contains filter v then try_push b v else b

  contains-kept :
      (b : B) (v x : ℕ)
      → IsBelow roaring b v
      → contains (kept b v) x ≡ (contains b x || (x == v && contains filter x))
  unfolding kept
  contains-kept b v x h = ground (arith, contains-try_push_top roaring b v x h)

  kept-IsBelow :
      (b : B) (prev v : ℕ) → IsBelow roaring b prev → prev ≤ v → IsBelow roaring (kept b v) v
  unfolding kept
  kept-IsBelow b prev v h le m e = elim (Bool-cases (contains filter v)) [
    | inl c ↦ try_push-IsBelow roaring b prev v h le m (rw c at e)
    | inr c ↦ omega (arith, h m (rw c at e))
  ]

  -- Behind a value that is above the filter's largest nothing more is in the filter.
  none_above :
      (v x : ℕ) (values : List ℕ)
      → max < v
      → IsAscending v values
      → ((x == v || elem x values) && contains filter x) ≡ false
  none_above v x values h asc =
      ground (arith, le-elem v x values asc, roaring.contains-le filter x max top)

  intersect-Decodes :
      {rest : List ℕ} {prev : ℕ} {values : List ℕ} (d : Decodes rest prev values)
      → (fuel : ℕ) (b : B) → IsU32 prev
      → IsBelow roaring b prev
      → length rest ≤ fuel
      → (b' : B) × (delta_decode_intersect_loop roaring filter max fuel rest prev b ≡ some b')
        × ((x : ℕ) → contains b' x ≡ (contains b x || (elem x values && contains filter x)))
  unfolding kept
  intersect-Decodes {rest} {prev} (stop e) fuel b u below h =
      (b, intersect_stop fuel rest prev b e h, λ x. ground arith)
  intersect-Decodes {rest} (next delta consumed e d) zero b u below h =
      absurd (omega (arith, decode_varint_moves rest delta consumed e))
  intersect-Decodes {rest} {prev} (next {values = values} delta consumed e d) (suc fuel) b u below
        h =
      elim (Bool-cases (ltb max (saturating_add prev delta))) [
        | inl past ↦ (
          b,
          intersect_next fuel rest prev b delta consumed e ∙ rw past,
          λ x. ground (
            arith,
            none_above (saturating_add prev delta) x values (ltb→lt _ _ past)
                (Decodes-IsAscending (omega arith) d),
          ),
        )
        | inr within ↦
            let v : ℕ = saturating_add prev delta in
            let (b', run, same) =
              intersect-Decodes d fuel (kept b v) (omega arith)
                (kept-IsBelow b prev v below (omega arith))
                (omega (arith, decode_varint_moves rest delta consumed e)) in
            (
              b',
              intersect_next fuel rest prev b delta consumed e ∙ rw within run,
              λ x. ground (arith, same x, contains-kept b v x (λ m t. omega (arith, below m t))),
            )
      ]

module _ (roaring : Bitmap) where
  open roaring use {B, new, contains, max_of}

  -- On any bytes `delta_decode_intersect`, which stops at the filter's largest element, ends with
  -- exactly those values of `delta_decode` that are in the filter.
  pub delta_decode_intersect-delta_decode :
      (buf : List ℕ) (filter : B)
      → (bitmap : B) × (values : List ℕ) × (delta_decode_intersect roaring buf filter ≡ some bitmap)
        × (delta_decode buf ≡ some values)
        × ((x : ℕ) → contains bitmap x ≡ (elem x values && contains filter x))
  unfolding delta_decode_intersect
  delta_decode_intersect-delta_decode buf filter =
      let (values, d) = Decodes-total buf 0 in
      elim (Option-cases (max_of filter)) [
        | inl empty ↦ (
          new,
          values,
          rw (empty, delta_decode_intersect),
          delta_decode-Decodes buf values d,
          λ x. ground (arith, roaring.contains-new x, roaring.contains-none filter x empty),
        )
        | inr (max, top) ↦
            let (b, run, same) =
              intersect-Decodes roaring filter max top d (length buf) new (omega arith)
                (λ m e. cc roaring.max_of-new) (omega arith) in
            (
              b,
              values,
              rw (top, delta_decode_intersect) run,
              delta_decode-Decodes buf values d,
              λ x. ground (arith, same x, roaring.contains-new x),
            )
      ]
