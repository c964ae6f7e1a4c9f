-- ===== src/Index/Phrases.antt =====
-- src/index/reader.rs, get_token_positions and resolve_phrase_positional: the documents in which the
-- tokens of a phrase stand at the phrase's distances.
pub mod Narrowed
mod Runs
use fxi.Base.{
  ℕ, ◌+◌, ◌-◌, ◌%◌, ◌^◌, ◌≡◌, Bool, true, false, not, ◌&&◌, ◌||◌, Option, none, some, List, [], ◌∷◌,
  drop, length, ltb, leb, ◌==◌, if◌then◌else◌, ◌>>=◌,
}
use fxi.Base.Keys.{nat_eq, mem, find}
use fxi.Encoding.Bitmap.{Bitmap}
use fxi.Encoding.Positions.{Posting, decode_position_postings, decode_position_postings_filtered}
use fxi.Query.Text.{Str, Std, str_eq}
use fxi.Query.Sets.{Sets}
use fxi.Utils.Tokenizer.{slice_of}

-- Where the positions of a token stand in tokens.positions.
pub record TokenDictEntry : Type 0 where
  pub pos_offset : ℕ
  pub pos_length : ℕ

-- What phrases read from a segment. The dictionary is sorted, and its binary search finds the entry
-- of a token if there is one.
pub record SegmentReader : Type 0 where
  pub token_dict : List (Str × TokenDictEntry)
  pub token_positions : Option (List ℕ)

abbrev pub is_none : {A : Type 0} → Option A → Bool
is_none none = true
is_none (some a) = false

-- start + offset - first, on u32
unfoldable pub expected_pos : ℕ → ℕ → ℕ → ℕ
expected_pos start offset first = (start + offset + (2 ^ 32 - first)) % 2 ^ 32

-- Whether a position is among those of a document, if it has any.
abbrev pub stands_at : ℕ → Option (List ℕ) → Bool
stands_at pos none = false
stands_at pos (some pos_list) = mem pos pos_list

-- The loop over the tokens behind the first. The searches are binary: what was decoded is sorted.
unfoldable pub all_match : ℕ → ℕ → ℕ → List (List Posting) → List (Str × ℕ) → Bool
unfolding expected_pos
all_match doc_id start first [] tokens = true
all_match doc_id start first (p ∷ ps) [] = true
all_match doc_id start first (p ∷ ps) ((t, offset) ∷ tokens) =
    let rest = all_match doc_id start first ps tokens in
    stands_at (expected_pos start offset first) (find doc_id p) && rest

-- The loop over the positions of the first token in a document.
unfoldable pub any_start : ℕ → ℕ → List (List Posting) → List (Str × ℕ) → List ℕ → Bool
unfolding all_match
any_start doc_id first positions tokens [] = false
any_start doc_id first positions tokens (start ∷ starts) =
    all_match doc_id start first positions tokens || any_start doc_id first positions tokens starts

abbrev pub any_without_positions : List SegmentReader → Bool
any_without_positions [] = false
any_without_positions (s ∷ ss) = is_none s.token_positions || any_without_positions ss

-- The bytes of an entry, if they stand within the file.
abbrev pub entry_bytes : List ℕ → TokenDictEntry → Option (List ℕ)
entry_bytes mmap entry =
    let end = entry.pos_offset + entry.pos_length in
    if entry.pos_length == 0
    then none
    else if ltb (length mmap) end
    then none
    else some (slice_of mmap entry.pos_offset end)

module _ (roaring : Bitmap) where
  abbrev pub decode : List ℕ → Option (Bitmap.B roaring) → Option (List Posting)
  decode bytes none = decode_position_postings bytes
  decode bytes (some filter) = decode_position_postings_filtered roaring bytes filter

  unfoldable pub get_token_positions :
      SegmentReader → Str → Option (Bitmap.B roaring) → Option (List Posting)
  get_token_positions segment token filter = do
    mmap ← segment.token_positions
    entry ← find token segment.token_dict
    bytes ← entry_bytes mmap entry
    decode bytes filter

  -- The positions of each token, if every token has some in the segment.
  unfoldable pub all_positions :
      SegmentReader → List Str → Option (Bitmap.B roaring) → Option (List (List Posting))
  unfolding get_token_positions
  all_positions segment [] filter = some []
  all_positions segment (token ∷ tokens) filter = do
    p ← get_token_positions segment token filter
    ps ← all_positions segment tokens filter
    some (p ∷ ps)

  -- `as_bitmap` takes the set of candidates, which query execution works on, for the bitmap.
  module _ (std : Std) (sets : Sets) (as_bitmap : Sets.B sets → Bitmap.B roaring) where
    open sets use {B, new, insert, or_of}

    abbrev pub tokens_lower : List (Str × ℕ) → List Str
    tokens_lower [] = []
    tokens_lower ((t, offset) ∷ tokens) = Std.to_lowercase std t ∷ tokens_lower tokens

    abbrev pub map_candidates : Option B → Option (Bitmap.B roaring)
    map_candidates none = none
    map_candidates (some candidates) = some (as_bitmap candidates)

    unfoldable pub collect_docs : ℕ → List (List Posting) → List (Str × ℕ) → List Posting → B → B
    unfolding any_start
    collect_docs first positions tokens [] result = result
    collect_docs first positions tokens ((doc_id, first_pos) ∷ rest) result =
        let found = any_start doc_id first positions tokens first_pos in
        collect_docs first positions tokens rest (if found then insert result doc_id else result)

    -- The callers have at least two tokens.
    abbrev pub docs_of_positions : List (List Posting) → List (Str × ℕ) → B
    docs_of_positions [] tokens = new
    docs_of_positions (p ∷ ps) [] = new
    docs_of_positions (p ∷ ps) ((t, first) ∷ tokens) = collect_docs first ps tokens p new

    abbrev pub docs_of_found : Option (List (List Posting)) → List (Str × ℕ) → B
    docs_of_found none tokens = new
    docs_of_found (some positions) tokens = docs_of_positions positions tokens

    unfoldable pub resolve_phrase_in_segment : SegmentReader → List (Str × ℕ) → Option B → B
    unfolding all_positions collect_docs
    resolve_phrase_in_segment segment phrase_tokens candidates =
        docs_of_found
          (all_positions segment (tokens_lower phrase_tokens) (map_candidates candidates))
          phrase_tokens

    unfoldable pub reduce_phrase : List SegmentReader → List (Str × ℕ) → Option B → B
    unfolding resolve_phrase_in_segment
    reduce_phrase [] phrase_tokens candidates = new
    reduce_phrase (s ∷ ss) phrase_tokens candidates =
        or_of (resolve_phrase_in_segment s phrase_tokens candidates)
          (reduce_phrase ss phrase_tokens candidates)

    unfoldable pub resolve_phrase_positional :
        List SegmentReader → List (Str × ℕ) → Option B → Option B
    unfolding reduce_phrase
    resolve_phrase_positional segments phrase_tokens candidates =
        if ltb (length phrase_tokens) 2
        then none
        else if any_without_positions segments
        then none
        else some (reduce_phrase segments phrase_tokens candidates)
