-- ===== src/Index/SegmentFiles/Flat.antt =====
-- src/index/writer.rs, write_trigram_index_flat, write_line_maps_flat and write_bloom_filter: the
-- files of a segment in the first build of an index, from sorted pairs.
use fxi.Base.{ℕ, ◌+◌, Option, none, some, List, [], ◌∷◌, ◌++◌, length, ◌==◌, if◌then◌else◌}
use fxi.Encoding.Delta.{delta_encode}
use fxi.Utils.Tokenizer.{u32}
use fxi.Index.Documents.{to_le}
use fxi.Index.SegmentFiles.Dictionaries.{u64}

-- A pair in front of the groups of the others: a group of its own, or one more in the first group.
abbrev pub in_front : ℕ × ℕ → List (ℕ × List ℕ) → List (ℕ × List ℕ)
in_front (t, d) [] = (t, d ∷ []) ∷ []
in_front (t, d) ((u, ids) ∷ groups) =
    if t == u then (u, d ∷ ids) ∷ groups else (t, d ∷ []) ∷ (u, ids) ∷ groups

-- The groups of neighbouring pairs with one trigram.
unfoldable pub groups_of : List (ℕ × ℕ) → List (ℕ × List ℕ)
groups_of [] = []
groups_of (p ∷ pairs) = in_front p (groups_of pairs)

-- The loop that collects ids: an id equal to the last one is left out.
abbrev pub unique_after : Option ℕ → List ℕ → List ℕ
unique_after last [] = []
unique_after none (d ∷ ids) = d ∷ unique_after (some d) ids
unique_after (some last) (d ∷ ids) =
    let rest = unique_after (some d) ids in if last == d then rest else d ∷ rest

abbrev pub encode_group : List ℕ → List ℕ × ℕ
encode_group ids =
    let doc_ids = unique_after none ids in (delta_encode doc_ids [], u32 (length doc_ids))

unfoldable pub write_groups : (offset : ℕ) → List (ℕ × List ℕ) → List ℕ × List ℕ
write_groups offset [] = ([], [])
write_groups offset ((trigram, ids) ∷ groups) =
    let (enc, doc_freq) = encode_group ids in
    let (dict, bytes) = write_groups (u64 (offset + length enc)) groups in
    (
      to_le 4 trigram
          ++ (to_le 8 offset ++ (to_le 4 (u32 (length enc)) ++ (to_le 4 doc_freq ++ dict))),
      enc ++ bytes,
    )

-- grams.dict and grams.postings
unfoldable pub write_trigram_index_flat : List (ℕ × ℕ) → List ℕ × List ℕ
unfolding groups_of write_groups
write_trigram_index_flat [] = (to_le 4 0, [])
write_trigram_index_flat (p ∷ pairs) =
    let groups = groups_of (p ∷ pairs) in
    let (dict, bytes) = write_groups 0 groups in (to_le 4 (u32 (length groups)) ++ dict, bytes)
