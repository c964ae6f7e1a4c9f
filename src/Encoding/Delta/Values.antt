-- ===== src/Encoding/Delta/Values.antt =====
-- What a buffer of deltas stands for, apart from the loops that read it.
use fxi.Base.{
  ℕ, zero, suc, ◌+◌, ◌%◌, ◌^◌, ◌≤◌, ◌<◌, ◌≡◌, refl, ◌∙◌, arith, none, some, List, [], ◌∷◌, ◌++◌,
  length, length-drop, drop, Option-cases, inl, inr, append_assoc, append-nil, bit_or, bit_and, ◌*◌,
}
use fxi.Encoding.Varint.{IsU32, decode_varint, decode_varint_slow, decode_loop}
use fxi.Encoding.Delta.{saturating_add, delta_decode_loop, delta_decode}

-- The values that the bytes `rest` hold behind the value `prev`: each varint is the difference to
-- the next value, and the first bytes that are no varint end the list.
pub data Decodes : List ℕ → ℕ → List ℕ → Type 0 where
  stop : {rest : List ℕ} {prev : ℕ} → decode_varint rest ≡ none → Decodes rest prev []
  next :
      {rest : List ℕ} {prev : ℕ} {values : List ℕ} (delta consumed : ℕ)
      → decode_varint rest ≡ some (delta, consumed)
      → Decodes (drop consumed rest) (saturating_add prev delta) values
      → Decodes rest prev (saturating_add prev delta ∷ values)

-- u32 values in ascending order, none below `prev`.
abbrev pub IsAscending : ℕ → List ℕ → Type 0
IsAscending prev [] = Unit
IsAscending prev (v ∷ vs) = (prev ≤ v) × IsU32 v × IsAscending v vs

pub Decodes-IsAscending :
    {rest : List ℕ} {prev : ℕ} {values : List ℕ}
    → IsU32 prev
    → Decodes rest prev values
    → IsAscending prev values
Decodes-IsAscending h (stop e) = tt
Decodes-IsAscending h (next delta consumed e d) =
    (omega arith, omega arith, Decodes-IsAscending (omega arith) d)

-- A varint takes a byte at least, so every loop over a buffer gets shorter.
decode_loop_moves :
    (width : ℕ) (buf : List ℕ) (i result shift v n : ℕ)
    → decode_loop width buf i result shift ≡ some (v, n)
    → i < n
unfolding decode_loop
decode_loop_moves width [] i result shift v n e = ground arith
decode_loop_moves width (b ∷ bs) i result shift v n e = ground (
  arith,
  decode_loop_moves width bs (i + 1) (bit_or result (bit_and b 0x7f * 2 ^ shift % 2 ^ width))
      (shift + 7) v n,
)

pub decode_varint_moves :
    (rest : List ℕ) (v n : ℕ)
    → decode_varint rest ≡ some (v, n)
    → length (drop n rest) < length rest
unfolding decode_varint decode_varint_slow
decode_varint_moves [] v n e = ground arith
decode_varint_moves (b ∷ bs) v n e =
    ground (arith, length-drop n (b ∷ bs), decode_loop_moves 32 bs 1 (bit_and b 0x7f) 7 v n)

pub decode_varint_empty : decode_varint [] ≡ none
unfolding decode_varint
decode_varint_empty = refl

-- Every buffer stands for some values.
Decodes-within :
    (fuel : ℕ) (rest : List ℕ) (prev : ℕ)
    → length rest ≤ fuel
    → (values : List ℕ) × Decodes rest prev values
Decodes-within zero [] prev h = ([], stop decode_varint_empty)
Decodes-within zero (b ∷ bs) prev h = absurd (omega arith)
Decodes-within (suc fuel) rest prev h = elim (Option-cases (decode_varint rest)) [
  | inl e ↦ ([], stop e)
  | inr ((delta, consumed), e) ↦
      let (values, d) =
        Decodes-within fuel (drop consumed rest) (saturating_add prev delta)
          (omega (arith, decode_varint_moves rest delta consumed e)) in
      (saturating_add prev delta ∷ values, next delta consumed e d)
]

pub Decodes-total : (rest : List ℕ) (prev : ℕ) → (values : List ℕ) × Decodes rest prev values
Decodes-total rest prev = Decodes-within (length rest) rest prev (omega arith)

-- The rounds of `delta_decode`.
delta_decode_loop_stop :
    (fuel : ℕ) (rest : List ℕ) (prev : ℕ) (result : List ℕ)
    → decode_varint rest ≡ none
    → length rest ≤ fuel
    → delta_decode_loop fuel rest prev result ≡ some result
unfolding delta_decode_loop
delta_decode_loop_stop fuel [] prev result e h = refl
delta_decode_loop_stop zero (b ∷ bs) prev result e h = absurd (omega arith)
delta_decode_loop_stop (suc fuel) (b ∷ bs) prev result e h = rw (e, delta_decode_loop)

delta_decode_loop_next :
    (fuel : ℕ) (rest : List ℕ) (prev : ℕ) (result : List ℕ) {delta consumed : ℕ}
    → decode_varint rest ≡ some (delta, consumed)
    → delta_decode_loop (suc fuel) rest prev result
      ≡ delta_decode_loop fuel
          (drop consumed rest)
          (saturating_add prev delta)
          (result ++ (saturating_add prev delta ∷ []))
unfolding delta_decode_loop
delta_decode_loop_next fuel [] prev result e = cc decode_varint_empty
delta_decode_loop_next fuel (b ∷ bs) prev result e = rw (e, delta_decode_loop)

-- With a round for each byte it collects exactly the values that the buffer stands for.
delta_decode_loop-Decodes :
    {rest : List ℕ} {prev : ℕ} {values : List ℕ} (d : Decodes rest prev values)
    → (fuel : ℕ) (result : List ℕ) → length rest ≤ fuel
    → delta_decode_loop fuel rest prev result ≡ some (result ++ values)
delta_decode_loop-Decodes {rest} {prev} (stop e) fuel result h =
    delta_decode_loop_stop fuel rest prev result e h ∙ rw append-nil
delta_decode_loop-Decodes {rest} (next delta consumed e d) zero result h =
    absurd (omega (arith, decode_varint_moves rest delta consumed e))
delta_decode_loop-Decodes {rest} {prev} (next delta consumed e d) (suc fuel) result h =
    delta_decode_loop_next fuel rest prev result e
    ∙ delta_decode_loop-Decodes d fuel _ (omega (arith, decode_varint_moves rest delta consumed e))
    ∙ rw append_assoc

pub delta_decode-Decodes :
    (buf : List ℕ) (values : List ℕ) → Decodes buf 0 values → delta_decode buf ≡ some values
unfolding delta_decode
delta_decode-Decodes buf values d = delta_decode_loop-Decodes d (length buf) [] (omega arith)

-- On any bytes `delta_decode` ends, and what it returns is ascending and fits u32.
pub delta_decode_total :
    (buf : List ℕ) → (values : List ℕ) × (delta_decode buf ≡ some values) × IsAscending 0 values
delta_decode_total buf =
    let (values, d) = Decodes-total buf 0 in
    (values, delta_decode-Decodes buf values d, Decodes-IsAscending (omega arith) d)
