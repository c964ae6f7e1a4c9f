-- ===== src/Encoding/Positions/RoundTrip.antt =====
-- `decode_position_postings` against `encode_position_postings`.
use fxi.Base.{
  ℕ, zero, suc, ◌-◌, ◌%◌, ◌^◌, ◌≤◌, ◌<◌, ◌≡◌, refl, sym, ◌∙◌, arith, none, some, List, [], ◌∷◌,
  ◌++◌, length, length-append, drop, drop-append, All, All-append, append_assoc, append-nil,
}
use fxi.Encoding.Varint.{IsByte, IsU32, encode_varint, decode_varint}
use fxi.Encoding.Varint.RoundTrip.{
  encode_varint-append, encode_varint-IsByte, decode_varint-encode_varint, length-encode_varint,
}
use fxi.Encoding.Delta.{sub_u32, saturating_add}
use fxi.Encoding.Delta.Values.{IsAscending, decode_varint_empty}
use fxi.Encoding.Delta.RoundTrip.{deltas, deltas-IsByte, delta_encode_loop-deltas}
use fxi.Encoding.Positions.{
  Posting, encode_position_loop, encode_position_postings, decode_positions, decode_entry_head,
  decode_position_loop, decode_position_postings,
}

-- Document ids in ascending order from `prev` on, each with ascending positions, all of them u32.
abbrev pub AreSorted : ℕ → List Posting → Type 0
AreSorted prev [] = Unit
AreSorted prev ((doc, positions) ∷ rest) =
    (prev ≤ doc)
    × IsU32 doc
    × IsU32 (length positions)
    × IsAscending 0 positions
    × AreSorted doc rest

-- The bytes of the entries behind the id `prev`.
unfoldable pub entries : ℕ → List Posting → List ℕ
entries prev [] = []
entries prev ((doc, positions) ∷ rest) =
    encode_varint (doc - prev) []
    ++ (encode_varint (length positions) [] ++ (deltas 0 positions ++ entries doc rest))

pub entries-IsByte : (prev : ℕ) (docs : List Posting) → All IsByte (entries prev docs)
unfolding entries
entries-IsByte prev [] = tt
entries-IsByte prev ((doc, positions) ∷ rest) =
    All-append IsByte _ _ (encode_varint-IsByte (doc - prev)) (
      All-append IsByte _ _ (encode_varint-IsByte (length positions))
        (All-append IsByte _ _ (deltas-IsByte 0 positions) (entries-IsByte doc rest)))

pub encode_position_loop-entries :
    (prev : ℕ) (docs : List Posting) (buf : List ℕ)
    → AreSorted prev docs
    → encode_position_loop prev docs buf ≡ buf ++ entries prev docs
unfolding encode_position_loop entries
encode_position_loop-entries prev [] buf h = sym (append-nil buf)
encode_position_loop-entries prev ((doc, positions) ∷ rest) buf (le, fits, short, asc, h) =
    encode_position_loop-entries doc rest _ h
    ∙ rw
        (
          no_wrap,
          small,
          delta_encode_loop-deltas 0 positions _ asc,
          encode_varint-append (length positions) (encode_varint (doc - prev) buf),
          encode_varint-append (doc - prev) buf,
        )
        (simp append_assoc)
  where
    no_wrap : sub_u32 doc prev ≡ doc - prev
    no_wrap = omega arith

    small : length positions % 2 ^ 32 ≡ length positions
    small = omega arith

decode_positions_next :
    (count : ℕ) (rest : List ℕ) (prev : ℕ) (acc : List ℕ) {delta consumed : ℕ}
    → decode_varint rest ≡ some (delta, consumed)
    → decode_positions (suc count) rest prev acc
      ≡ decode_positions count
          (drop consumed rest)
          (saturating_add prev delta)
          (acc ++ (saturating_add prev delta ∷ []))
unfolding decode_positions
decode_positions_next count rest prev acc e = rw (e, decode_positions)

pub decode_positions-deltas :
    (prev : ℕ) (positions acc rest : List ℕ)
    → IsAscending prev positions
    → All IsByte rest
    → decode_positions (length positions) (deltas prev positions ++ rest) prev acc
      ≡ (acc ++ positions, rest)
unfolding deltas
decode_positions-deltas prev [] acc rest h bytes = rw append-nil (unfold decode_positions in refl)
decode_positions-deltas prev (p ∷ ps) acc rest (le, fits, h) bytes =
    let front : List ℕ = encode_varint (p - prev) [] in
    rw append_assoc (
      decode_positions_next (length ps) (front ++ (deltas p ps ++ rest)) prev acc (
        decode_varint-encode_varint (p - prev) (deltas p ps ++ rest) (omega arith)
          (All-append IsByte _ _ (deltas-IsByte p ps) bytes))
      ∙ rw (drop-append, reached)
          (decode_positions-deltas p ps (acc ++ (p ∷ [])) rest h bytes ∙ rw append_assoc))
  where
    reached : saturating_add prev (p - prev) ≡ p
    reached = omega arith

-- The head of an entry, and a round over it.
pub decode_entry_head-entries :
    (prev doc count : ℕ) (rest : List ℕ)
    → prev ≤ doc
    → IsU32 doc
    → IsU32 count
    → All IsByte rest
    → decode_entry_head (encode_varint (doc - prev) [] ++ (encode_varint count [] ++ rest)) prev
      ≡ some (doc, count, rest)
unfolding decode_entry_head
decode_entry_head-entries prev doc count rest le fits short bytes =
    rw (first_read, drop-append, second_read, reached, decode_entry_head)
      (rw (drop-append, drop-append))
  where
    tail : List ℕ
    tail = encode_varint count [] ++ rest

    first_read :
        decode_varint (encode_varint (doc - prev) [] ++ tail)
        ≡ some (doc - prev, length (encode_varint (doc - prev) []))
    first_read =
        decode_varint-encode_varint (doc - prev) tail (omega arith)
          (All-append IsByte _ _ (encode_varint-IsByte count) bytes)

    second_read : decode_varint tail ≡ some (count, length (encode_varint count []))
    second_read = decode_varint-encode_varint count rest short bytes

    reached : saturating_add prev (doc - prev) ≡ doc
    reached = omega arith

pub decode_entry_head_empty : (prev : ℕ) → decode_entry_head [] prev ≡ none
unfolding decode_entry_head
decode_entry_head_empty prev = rw (decode_varint_empty, decode_entry_head)

pub entries_shorter :
    (prev doc : ℕ) (positions : List ℕ) (rest : List Posting)
    → IsU32 doc
    → length (entries doc rest) < length (entries prev ((doc, positions) ∷ rest))
unfolding entries
entries_shorter prev doc positions rest fits =
    rw (length-append, length-append, length-append)
      (omega (arith, length-encode_varint (doc - prev) (omega arith)))

-- The bytes behind the head of an entry.
pub body-IsByte :
    (doc : ℕ) (positions : List ℕ) (rest : List Posting)
    → All IsByte (deltas 0 positions ++ entries doc rest)
body-IsByte doc positions rest =
    All-append IsByte _ _ (deltas-IsByte 0 positions) (entries-IsByte doc rest)

decode_position_loop_next :
    (fuel : ℕ) (bytes : List ℕ) (prev : ℕ) (result : List Posting) {doc count : ℕ} {rest : List ℕ}
    → decode_entry_head bytes prev ≡ some (doc, count, rest)
    → decode_position_loop (suc fuel) bytes prev result
      ≡ decode_position_loop fuel
          (decode_positions count rest 0 []).1
          doc
          (result ++ ((doc, (decode_positions count rest 0 []).0) ∷ []))
unfolding decode_position_loop
decode_position_loop_next fuel [] prev result e = cc (decode_entry_head_empty prev)
decode_position_loop_next fuel (b ∷ bs) prev result e = rw (e, decode_position_loop)

pub decode_position_loop-entries :
    (prev : ℕ) (docs : List Posting) (fuel : ℕ) (result : List Posting)
    → AreSorted prev docs
    → length (entries prev docs) ≤ fuel
    → decode_position_loop fuel (entries prev docs) prev result ≡ some (result ++ docs)
unfolding entries
decode_position_loop-entries prev [] fuel result h enough =
    rw append-nil (unfold decode_position_loop in refl)
decode_position_loop-entries prev ((doc, positions) ∷ rest) zero result (le, fits, _, _, _) enough =
    absurd (omega (arith, entries_shorter prev doc positions rest fits))
decode_position_loop-entries prev ((doc, positions) ∷ rest) (suc fuel) result
      (le, fits, short, asc, h) enough =
    decode_position_loop_next fuel (entries prev ((doc, positions) ∷ rest)) prev result head
    ∙ rw (decode_positions-deltas 0 positions [] (entries doc rest) asc (entries-IsByte doc rest)) (
        decode_position_loop-entries doc rest fuel (result ++ ((doc, positions) ∷ [])) h
          (omega (arith, entries_shorter prev doc positions rest fits))
        ∙ rw append_assoc)
  where
    head :
        decode_entry_head (entries prev ((doc, positions) ∷ rest)) prev
        ≡ some (doc, length positions, deltas 0 positions ++ entries doc rest)
    head =
        decode_entry_head-entries prev doc (length positions)
          (deltas 0 positions ++ entries doc rest) le fits short (body-IsByte doc positions rest)

-- For documents in ascending order of u32 ids, each with fewer than 2 ^ 32 positions in ascending
-- order, `decode_position_postings` reads back what `encode_position_postings` wrote.
pub decode-encode_position_postings :
    (docs : List Posting)
    → AreSorted 0 docs
    → decode_position_postings (encode_position_postings docs []) ≡ some docs
unfolding decode_position_postings encode_position_postings
decode-encode_position_postings docs h =
    rw (encode_position_loop-entries 0 docs [] h)
      (decode_position_loop-entries 0 docs (length (entries 0 docs)) [] h (omega arith))
