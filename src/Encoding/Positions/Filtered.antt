-- ===== src/Encoding/Positions/Filtered.antt =====
-- `decode_position_postings_filtered` on what `encode_position_postings` wrote.
use fxi.Base.{
  ℕ, zero, suc, ◌-◌, ◌/◌, ◌^◌, ◌≤◌, ◌<◌, ◌≡◌, refl, ◌∙◌, arith, Bool, none, some, List, [], ◌∷◌,
  ◌++◌, length, append_assoc, append-nil, ltb, if◌then◌else◌, Option-cases, inl, inr, dec_lt,
}
use fxi.Base.Order.{lt_wf}
use fxi.Encoding.Varint.{encode_varint, encode_loop, shrinks}
use fxi.Encoding.Varint.Encode.{encode_loop_last, encode_loop_more}
use fxi.Encoding.Bitmap.{Bitmap}
use fxi.Encoding.Delta.RoundTrip.{deltas}
use fxi.Encoding.Positions.{
  Posting, encode_position_postings, decode_positions, decode_entry_head, skip_varints,
  filtered_loop, decode_position_postings_filtered,
}
use fxi.Encoding.Positions.RoundTrip.{
  AreSorted, entries, entries-IsByte, encode_position_loop-entries, decode_positions-deltas,
  decode_entry_head-entries, decode_entry_head_empty, entries_shorter, body-IsByte,
}
use mathlib.Core.WellFounded.{Acc}

-- Skipping one varint drops exactly its bytes.
skip-encode_loop :
    (v : ℕ) (w : Acc ◌<◌ v) (n : ℕ) (rest : List ℕ)
    → skip_varints (suc n) (encode_loop v [] w ++ rest) ≡ skip_varints n rest
unfolding skip_varints
skip-encode_loop v (Acc.intro _ smaller) n rest = elim (dec_lt v 0x80) [
  | yes p ↦ rw (encode_loop_last v [] (Acc.intro v smaller) p) (ground arith)
  | no p ↦
      rw (encode_loop_more v smaller p)
        (ground (arith, skip-encode_loop (v / 2 ^ 7) (smaller _ (shrinks v p)) n rest))
]

skip-encode_varint :
    (v n : ℕ) (rest : List ℕ)
    → skip_varints (suc n) (encode_varint v [] ++ rest) ≡ skip_varints n rest
unfolding encode_varint
skip-encode_varint v n rest = skip-encode_loop v (lt_wf.apply v) n rest

skip-deltas :
    (prev : ℕ) (positions rest : List ℕ)
    → skip_varints (length positions) (deltas prev positions ++ rest) ≡ rest
unfolding deltas
skip-deltas prev [] rest = unfold skip_varints in refl
skip-deltas prev (p ∷ ps) rest =
    rw append_assoc
      (skip-encode_varint (p - prev) (length ps) (deltas p ps ++ rest) ∙ skip-deltas p ps rest)

-- The documents that are in the filter.
abbrev pub retain : (ℕ → Bool) → List Posting → List Posting
retain test [] = []
retain test (d ∷ ds) = if test d.0 then d ∷ retain test ds else retain test ds

module _ (roaring : Bitmap) (filter : roaring.B) where
  open roaring use {B, contains, max_of}

  retain_empty : (docs : List Posting) → max_of filter ≡ none → retain (contains filter) docs ≡ []
  retain_empty [] h = refl
  retain_empty (d ∷ ds) h = ground (arith, roaring.contains-none filter d.0 h, retain_empty ds h)

  module _ (max : ℕ) (top : max_of filter ≡ some max) where
    -- Behind an id above the filter's largest no document is in the filter.
    retain_past :
        (prev : ℕ) (docs : List Posting)
        → max < prev
        → AreSorted prev docs
        → retain (contains filter) docs ≡ []
    retain_past prev [] h sorted = refl
    retain_past prev ((doc, ps) ∷ ds) h (le, _, _, _, sorted) =
        ground
          (arith, roaring.contains-le filter doc max top, retain_past doc ds (omega arith) sorted)

    filtered_loop_next :
        (fuel : ℕ) (bytes : List ℕ) (prev : ℕ) (result : List Posting) (doc count : ℕ)
        (rest : List ℕ)
        → decode_entry_head bytes prev ≡ some (doc, count, rest)
        → filtered_loop roaring filter max (suc fuel) bytes prev result ≡ (
            if ltb max doc
            then some result
            else if contains filter doc
            then filtered_loop roaring filter max fuel
                (decode_positions count rest 0 []).1
                doc
                (result ++ ((doc, (decode_positions count rest 0 []).0) ∷ []))
            else filtered_loop roaring filter max fuel (skip_varints count rest) doc result)
    unfolding filtered_loop
    filtered_loop_next fuel [] prev result doc count rest e = cc (decode_entry_head_empty prev)
    filtered_loop_next fuel (b ∷ bs) prev result doc count rest e = rw (e, filtered_loop)

    filtered_loop-entries :
        (prev : ℕ) (docs : List Posting) (fuel : ℕ) (result : List Posting)
        → AreSorted prev docs
        → length (entries prev docs) ≤ fuel
        → filtered_loop roaring filter max fuel (entries prev docs) prev result
          ≡ some (result ++ retain (contains filter) docs)
    unfolding entries
    filtered_loop-entries prev [] fuel result h enough =
        rw append-nil (unfold filtered_loop in refl)
    filtered_loop-entries prev ((doc, ps) ∷ rest) zero result (le, fits, _, _, _) enough =
        absurd (omega (arith, entries_shorter prev doc ps rest fits))
    filtered_loop-entries prev ((doc, ps) ∷ rest) (suc fuel) result (le, fits, short, asc, h)
          enough =
        filtered_loop_next fuel (entries prev ((doc, ps) ∷ rest)) prev result doc (length ps)
          (deltas 0 ps ++ entries doc rest)
          (decode_entry_head-entries prev doc (length ps) (deltas 0 ps ++ entries doc rest) le fits
            short (body-IsByte doc ps rest))
        ∙ rw
            (
              decode_positions-deltas 0 ps [] (entries doc rest) asc (entries-IsByte doc rest),
              skip-deltas 0 ps (entries doc rest),
            )
            (ground (
              arith,
              room,
              roaring.contains-le filter doc max top,
              retain_past doc rest,
              filtered_loop-entries doc rest fuel (result ++ ((doc, ps) ∷ [])) h room,
              filtered_loop-entries doc rest fuel result h room,
              append_assoc result ((doc, ps) ∷ []) (retain (contains filter) rest),
              append-nil result,
            ))
      where
        room : length (entries doc rest) ≤ fuel
        room = omega (arith, entries_shorter prev doc ps rest fits)

module _ (roaring : Bitmap) where
  open roaring use {B, contains, max_of}

  -- For documents in ascending order of u32 ids, each with fewer than 2 ^ 32 positions in ascending
  -- order, `decode_position_postings_filtered` returns from what `encode_position_postings` wrote
  -- exactly the documents that are in the filter, with all their positions, in order.
  pub decode_position_postings_filtered_lem :
      (docs : List Posting) (filter : B)
      → AreSorted 0 docs
      → decode_position_postings_filtered roaring (encode_position_postings docs []) filter
        ≡ some (retain (contains filter) docs)
  unfolding decode_position_postings_filtered encode_position_postings
  decode_position_postings_filtered_lem docs filter h = elim (Option-cases (max_of filter)) [
    | inl empty ↦
        rw (empty, decode_position_postings_filtered) (rw (retain_empty roaring filter docs empty))
    | inr (max, top) ↦
        rw (top, decode_position_postings_filtered)
          (rw (encode_position_loop-entries 0 docs [] h) (
            filtered_loop-entries roaring filter max top 0 docs (length (entries 0 docs)) [] h
              (omega arith)))
  ]
