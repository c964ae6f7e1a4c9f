-- ===== src/Encoding/Delta/RoundTrip.antt =====
-- `delta_decode` against `delta_encode`.
use fxi.Base.{
  ℕ, ◌-◌, ◌≡◌, ap, sym, subst, ◌∙◌, arith, some, List, [], ◌∷◌, ◌++◌, length, drop-append, All,
  All-append, append_assoc, append-nil,
}
use fxi.Encoding.Varint.{IsByte, encode_varint, decode_varint}
use fxi.Encoding.Varint.RoundTrip.{
  encode_varint-append, encode_varint-IsByte, decode_varint-encode_varint,
}
use fxi.Encoding.Delta.{sub_u32, saturating_add, delta_encode_loop, delta_encode, delta_decode}
use fxi.Encoding.Delta.Values.{
  Decodes, stop, next, IsAscending, decode_varint_empty, delta_decode-Decodes,
}

-- The bytes of the differences behind `prev`.
unfoldable pub deltas : ℕ → List ℕ → List ℕ
deltas prev [] = []
deltas prev (v ∷ vs) = encode_varint (v - prev) [] ++ deltas v vs

pub deltas-IsByte : (prev : ℕ) (vs : List ℕ) → All IsByte (deltas prev vs)
unfolding deltas
deltas-IsByte prev [] = tt
deltas-IsByte prev (v ∷ vs) =
    All-append IsByte _ _ (encode_varint-IsByte (v - prev)) (deltas-IsByte v vs)

pub delta_encode_loop-deltas :
    (prev : ℕ) (vs buf : List ℕ)
    → IsAscending prev vs
    → delta_encode_loop prev vs buf ≡ buf ++ deltas prev vs
unfolding delta_encode_loop deltas
delta_encode_loop-deltas prev [] buf h = sym (append-nil buf)
delta_encode_loop-deltas prev (v ∷ vs) buf (le, fits, h) =
    delta_encode_loop-deltas v vs _ h
    ∙ ap (λ (d : ℕ). encode_varint d buf ++ deltas v vs) no_wrap
    ∙ rw (encode_varint-append (v - prev) buf) (append_assoc buf _ _)
  where
    no_wrap : sub_u32 v prev ≡ v - prev
    no_wrap = omega arith

-- The bytes of the differences stand for the values.
deltas-Decodes : (prev : ℕ) (vs : List ℕ) → IsAscending prev vs → Decodes (deltas prev vs) prev vs
unfolding deltas
deltas-Decodes prev [] h = stop decode_varint_empty
deltas-Decodes prev (v ∷ vs) (le, fits, h) =
    subst (λ (u : ℕ). Decodes (deltas prev (v ∷ vs)) prev (u ∷ vs)) reached
      (next (v - prev) (length front) whole
        (rw (reached, drop-append front (deltas v vs)) (deltas-Decodes v vs h)))
  where
    front : List ℕ
    front = encode_varint (v - prev) []

    reached : saturating_add prev (v - prev) ≡ v
    reached = omega arith

    whole : decode_varint (front ++ deltas v vs) ≡ some (v - prev, length front)
    whole = decode_varint-encode_varint (v - prev) (deltas v vs) (omega arith) (deltas-IsByte v vs)

-- For every ascending list of u32 values, repetitions included, `delta_decode` reads back what
-- `delta_encode` wrote.
pub delta_decode-delta_encode :
    (values : List ℕ) → IsAscending 0 values → delta_decode (delta_encode values []) ≡ some values
unfolding delta_encode
delta_decode-delta_encode values h =
    rw (delta_encode_loop-deltas 0 values [] h)
      (delta_decode-Decodes (deltas 0 values) values (deltas-Decodes 0 values h))
