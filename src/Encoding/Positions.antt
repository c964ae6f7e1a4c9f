-- ===== src/Encoding/Positions.antt =====
-- src/utils/encoding.rs, encode_position_postings to decode_position_postings_filtered: for each
-- document the difference of its id, the count of its positions and their differences.
pub mod RoundTrip
pub mod Filtered
use fxi.Base.{
  ℕ, zero, suc, ◌%◌, ◌^◌, Option, none, some, List, [], ◌∷◌, ◌++◌, length, drop, ltb, if◌then◌else◌,
}
use fxi.Encoding.Varint.{encode_varint, decode_varint}
use fxi.Encoding.Bitmap.{Bitmap}
use fxi.Encoding.Delta.{sub_u32, saturating_add, delta_encode_loop}

-- (doc_id, positions)
abbrev pub Posting : Type 0
Posting = ℕ × List ℕ

-- The loop over the positions is the one of `delta_encode`, from 0.
unfoldable pub encode_position_loop : (prev_doc_id : ℕ) → List Posting → List ℕ → List ℕ
encode_position_loop prev_doc_id [] buf = buf
encode_position_loop prev_doc_id ((doc_id, positions) ∷ rest) buf =
    let with_id = encode_varint (sub_u32 doc_id prev_doc_id) buf in
    let with_count = encode_varint (length positions % 2 ^ 32) with_id in
    encode_position_loop doc_id rest (delta_encode_loop 0 positions with_count)

unfoldable pub encode_position_postings : List Posting → List ℕ → List ℕ
encode_position_postings doc_positions buf = encode_position_loop 0 doc_positions buf

-- `for _ in 0..count`, left by the first bytes that are no varint: the positions, and the bytes
-- from `pos` on.
unfoldable pub decode_positions : (count : ℕ) → List ℕ → (prev_pos : ℕ) → List ℕ → List ℕ × List ℕ
decode_positions zero rest prev_pos positions = (positions, rest)
decode_positions (suc count) rest prev_pos positions = elim (decode_varint rest) [
  | none ↦ (positions, rest)
  | some (pos_delta, consumed) ↦
      let pos = saturating_add prev_pos pos_delta in
      decode_positions count (drop consumed rest) pos (positions ++ (pos ∷ []))
]

-- The id and the count that start an entry, with the bytes behind them.
unfoldable pub decode_entry_head : List ℕ → (prev_doc_id : ℕ) → Option (ℕ × ℕ × List ℕ)
decode_entry_head rest prev_doc_id = elim (decode_varint rest) [
  | none ↦ none
  | some (delta, consumed) ↦
      let rest' = drop consumed rest in
      elim (decode_varint rest') [
        | none ↦ none
        | some (count, consumed') ↦
            some (saturating_add prev_doc_id delta, count, drop consumed' rest')
      ]
]

unfoldable pub decode_position_loop :
    (fuel : ℕ) → List ℕ → (prev_doc_id : ℕ) → List Posting → Option (List Posting)
decode_position_loop fuel [] prev_doc_id result = some result
decode_position_loop zero (b ∷ bs) prev_doc_id result = none
decode_position_loop (suc fuel) (b ∷ bs) prev_doc_id result =
    elim (decode_entry_head (b ∷ bs) prev_doc_id) [
      | none ↦ some result
      | some (doc_id, count, rest) ↦
          let (positions, rest') = decode_positions count rest 0 [] in
          decode_position_loop fuel rest' doc_id (result ++ ((doc_id, positions) ∷ []))
    ]

unfoldable pub decode_position_postings : List ℕ → Option (List Posting)
decode_position_postings buf = decode_position_loop (length buf) buf 0 []

-- Skips `remaining` varints by their last bytes.
unfoldable pub skip_varints : (remaining : ℕ) → List ℕ → List ℕ
skip_varints zero rest = rest
skip_varints (suc remaining) [] = []
skip_varints (suc remaining) (b ∷ bs) =
    skip_varints (if ltb b 0x80 then remaining else suc remaining) bs

module _ (roaring : Bitmap) where
  open roaring use {B, contains, max_of}

  unfoldable pub filtered_loop :
      (filter : B) (max fuel : ℕ)
      → List ℕ
      → (prev_doc_id : ℕ) → List Posting
      → Option (List Posting)
  filtered_loop filter max fuel [] prev_doc_id result = some result
  filtered_loop filter max zero (b ∷ bs) prev_doc_id result = none
  filtered_loop filter max (suc fuel) (b ∷ bs) prev_doc_id result =
      elim (decode_entry_head (b ∷ bs) prev_doc_id) [
        | none ↦ some result
        | some (doc_id, count, rest) ↦
            let (positions, rest') = decode_positions count rest 0 [] in
            let taken =
              filtered_loop filter max fuel rest' doc_id (result ++ ((doc_id, positions) ∷ [])) in
            let skipped = filtered_loop filter max fuel (skip_varints count rest) doc_id result in
            if ltb max doc_id
            then some result
            else if contains filter doc_id
            then taken
            else skipped
      ]

  unfoldable pub decode_position_postings_filtered : List ℕ → B → Option (List Posting)
  decode_position_postings_filtered buf filter = elim (max_of filter) [
    | none ↦ some []
    | some max ↦ filtered_loop filter max (length buf) buf 0 []
  ]
