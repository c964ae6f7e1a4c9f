-- ===== src/Encoding/Runs.antt =====
-- Runs of the codecs of src/utils/encoding.rs, and their theorems at concrete inputs.
use fxi.Base.{ℕ, ◌^◌, ◌≤◌, ◌≡◌, refl, arith, ◌&&◌, none, some, List, [], ◌∷◌, ◌++◌, length, dec_lt}
use fxi.Base.Order.{lt_wf}
use fxi.Encoding.Varint.{IsU32, encode_loop, encode_varint, encode_varint_u64}
use fxi.Encoding.Varint.{decode_loop, decode_varint_slow, decode_varint, decode_varint_u64}
use fxi.Encoding.Varint.RoundTrip.{
  decode_varint-encode_varint, decode_varint_u64-encode_varint_u64, decode_varint_takes,
  decode_varint_truncated, decode_varint-decode_loop,
}
use fxi.Encoding.Bitmap.Lists.{listed, held}
use fxi.Encoding.Delta.{delta_encode, delta_decode, delta_decode_bitmap, delta_decode_intersect}
use fxi.Encoding.Delta.Values.{IsAscending, delta_decode_total}
use fxi.Encoding.Delta.RoundTrip.{delta_decode-delta_encode}
use fxi.Encoding.Delta.Sets.{
  elem, delta_decode_bitmap-delta_decode, delta_decode_intersect-delta_decode,
}
use fxi.Encoding.Positions.{
  Posting, encode_position_postings, decode_position_postings, decode_position_postings_filtered,
}
use fxi.Encoding.Positions.RoundTrip.{decode-encode_position_postings}
use fxi.Encoding.Positions.Filtered.{decode_position_postings_filtered_lem}

encode_300 : encode_varint 300 (7 ∷ []) ≡ 7 ∷ 0xac ∷ 0x02 ∷ []
unfolding encode_varint encode_loop lt_wf dec_lt
encode_300 = refl

decode_300 : decode_varint (0xac ∷ 0x02 ∷ 9 ∷ []) ≡ some (300, 2)
unfolding decode_varint decode_varint_slow decode_loop
decode_300 = refl

-- Bits above the word in a fifth byte are dropped without notice.
decode_wide : decode_varint (0x80 ∷ 0x80 ∷ 0x80 ∷ 0x80 ∷ 0x10 ∷ []) ≡ some (0, 5)
unfolding decode_varint decode_varint_slow decode_loop
decode_wide = refl

decode_varint-encode_varint_example :
    decode_varint (encode_varint 300 [] ++ (9 ∷ [])) ≡ some (300, length (encode_varint 300 []))
decode_varint-encode_varint_example =
    decode_varint-encode_varint 300 (9 ∷ []) (omega arith) (omega arith)

decode_varint_u64-encode_varint_u64_example :
    decode_varint_u64 (encode_varint_u64 (2 ^ 40) [] ++ (9 ∷ []))
    ≡ some (2 ^ 40, length (encode_varint_u64 (2 ^ 40) []))
decode_varint_u64-encode_varint_u64_example =
    decode_varint_u64-encode_varint_u64 (2 ^ 40) (9 ∷ []) (omega arith)

decode_varint_takes_example : IsU32 300 × (1 ≤ 2) × (2 ≤ 5) × (2 ≤ 3)
decode_varint_takes_example =
    decode_varint_takes (0xac ∷ 0x02 ∷ 9 ∷ []) 300 2 (omega arith) decode_300

encode_300_alone : encode_varint 300 [] ≡ (0xac ∷ []) ++ (0x02 ∷ [])
unfolding encode_varint encode_loop lt_wf dec_lt
encode_300_alone = refl

decode_varint_truncated_example : decode_varint (0xac ∷ []) ≡ none
decode_varint_truncated_example =
    decode_varint_truncated 300 (0xac ∷ []) 0x02 [] (omega arith) encode_300_alone

decode_varint-decode_loop_example :
    decode_varint (0xac ∷ 0x02 ∷ []) ≡ decode_loop 32 (0xac ∷ 0x02 ∷ []) 0 0 0
decode_varint-decode_loop_example = decode_varint-decode_loop (0xac ∷ 0x02 ∷ []) (omega arith)

abbrev doc_ids : List ℕ
doc_ids = 1 ∷ 5 ∷ 5 ∷ 70000 ∷ []

delta_decode-delta_encode_example : delta_decode (delta_encode doc_ids []) ≡ some doc_ids
delta_decode-delta_encode_example = delta_decode-delta_encode doc_ids (omega arith)

abbrev corrupt : List ℕ
corrupt = 5 ∷ 0 ∷ 0x83 ∷ 1 ∷ 0x80 ∷ []

delta_decode_total_example :
    (values : List ℕ) × (delta_decode corrupt ≡ some values) × IsAscending 0 values
delta_decode_total_example = delta_decode_total corrupt

delta_decode_bitmap-delta_decode_example :
    (bitmap : List ℕ) × (values : List ℕ) × (delta_decode_bitmap listed corrupt ≡ some bitmap)
    × (delta_decode corrupt ≡ some values)
    × ((x : ℕ) → held bitmap x ≡ elem x values)
delta_decode_bitmap-delta_decode_example = delta_decode_bitmap-delta_decode listed corrupt

delta_decode_intersect-delta_decode_example :
    (bitmap : List ℕ) × (values : List ℕ) × (delta_decode_intersect listed corrupt (9 ∷ 5 ∷ [])
      ≡ some bitmap)
    × (delta_decode corrupt ≡ some values)
    × ((x : ℕ) → held bitmap x ≡ (elem x values && held (9 ∷ 5 ∷ []) x))
delta_decode_intersect-delta_decode_example =
    delta_decode_intersect-delta_decode listed corrupt (9 ∷ 5 ∷ [])

abbrev postings : List Posting
postings = (3, 0 ∷ 4 ∷ []) ∷ (7, []) ∷ (200, 1000 ∷ []) ∷ []

decode-encode_position_postings_example :
    decode_position_postings (encode_position_postings postings []) ≡ some postings
decode-encode_position_postings_example = decode-encode_position_postings postings (omega arith)

decode_position_postings_filtered_lem_example :
    decode_position_postings_filtered listed (encode_position_postings postings []) (7 ∷ 3 ∷ [])
    ≡ some ((3, 0 ∷ 4 ∷ []) ∷ (7, []) ∷ [])
decode_position_postings_filtered_lem_example =
    decode_position_postings_filtered_lem listed postings (7 ∷ 3 ∷ []) (omega arith)
