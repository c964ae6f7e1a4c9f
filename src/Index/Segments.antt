-- ===== src/Index/Segments.antt =====
-- src/index/reader.rs, get_trigram_docs_with_bloom: the documents that have all of some trigrams,
-- segment by segment.
pub mod Trigrams
mod Runs
use fxi.Base.{
  ℕ, Bool, true, false, Option, none, some, List, [], ◌∷◌, leb, if◌then◌else◌, ◌≡◌, ◌&&◌,
}
use fxi.Bloom.{BloomFilter, might_contain_all}
use fxi.Query.Sets.{Sets}

-- What narrowing reads from a segment: its filter and its posting lists.
pub record Segment (sets : Sets) : Type 0 where
  pub bloom_filter : Option BloomFilter
  pub get_trigram_docs : ℕ → Sets.B sets
  pub get_trigram_docs_intersect : ℕ → Sets.B sets → Sets.B sets
  pub get_trigram_doc_freq : ℕ → ℕ
  pub contains-get_trigram_docs_intersect :
      (t : ℕ) (b : Sets.B sets) (d : ℕ)
      → Sets.contains sets (get_trigram_docs_intersect t b) d
        ≡ (Sets.contains sets (get_trigram_docs t) d && Sets.contains sets b d)

-- sort_by_key on the second component, which is stable.
unfoldable pub place : ℕ × ℕ → List (ℕ × ℕ) → List (ℕ × ℕ)
place p [] = p ∷ []
place p (q ∷ qs) = let later = place p qs in if leb p.1 q.1 then p ∷ q ∷ qs else q ∷ later

module _ (hash_pair : ℕ → ℕ × ℕ) (sets : Sets) where
  open sets use {B, new, is_empty, or_of}

  unfoldable pub might_contain_trigrams : Segment sets → List ℕ → Bool
  unfolding might_contain_all
  might_contain_trigrams segment trigrams = elim (Segment.bloom_filter segment) [
    | some bf ↦ might_contain_all hash_pair bf trigrams
    | none ↦ true
  ]

  -- Each trigram with its document frequency, the rarest first.
  unfoldable pub sorted_trigrams : Segment sets → List ℕ → List (ℕ × ℕ)
  unfolding place
  sorted_trigrams segment [] = []
  sorted_trigrams segment (t ∷ ts) =
      place (t, Segment.get_trigram_doc_freq segment t) (sorted_trigrams segment ts)

  unfoldable pub intersect_loop : Segment sets → List (ℕ × ℕ) → B → B
  intersect_loop segment [] result = result
  intersect_loop segment ((t, freq) ∷ rest) result =
      let more =
        intersect_loop segment rest (Segment.get_trigram_docs_intersect segment t result) in
      if is_empty result then result else more

  -- The callers have at least one trigram.
  abbrev pub docs_of_sorted : Segment sets → List (ℕ × ℕ) → B
  docs_of_sorted segment [] = new
  docs_of_sorted segment ((t, freq) ∷ rest) =
      intersect_loop segment rest (Segment.get_trigram_docs segment t)

  unfoldable pub segment_docs : Segment sets → List ℕ → B
  unfolding sorted_trigrams intersect_loop
  segment_docs segment trigrams = docs_of_sorted segment (sorted_trigrams segment trigrams)

  -- The filter, map and reduce over several segments.
  unfoldable pub reduce_segments : List (Segment sets) → List ℕ → B
  unfolding segment_docs might_contain_trigrams
  reduce_segments [] trigrams = new
  reduce_segments (s ∷ ss) trigrams =
      let rest = reduce_segments ss trigrams in
      if might_contain_trigrams s trigrams then or_of (segment_docs s trigrams) rest else rest

  abbrev pub docs_of_segments : List (Segment sets) → List ℕ → B
  docs_of_segments [] trigrams = new
  docs_of_segments (s ∷ []) trigrams =
      if might_contain_trigrams s trigrams then segment_docs s trigrams else new
  docs_of_segments (s ∷ r ∷ ss) trigrams = reduce_segments (s ∷ r ∷ ss) trigrams

  unfoldable pub get_trigram_docs_with_bloom : B → List (Segment sets) → List ℕ → B
  unfolding reduce_segments
  get_trigram_docs_with_bloom valid_doc_ids segments [] = valid_doc_ids
  get_trigram_docs_with_bloom valid_doc_ids segments (t ∷ ts) = docs_of_segments segments (t ∷ ts)
