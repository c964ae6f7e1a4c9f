-- ===== src/Index/Segments/Trigrams.antt =====
-- get_trigram_docs_with_bloom of src/index/reader.rs finds the documents that have every trigram.
use fxi.Base.{
  ℕ, ◌≡◌, refl, arith, Bool, true, false, ◌||◌, ◌&&◌, List, [], ◌∷◌, leb, All, if◌then◌else◌,
  Bool-cases, Option-cases, inl, inr,
}
use fxi.Bloom.{might_contain_all}
use fxi.Query.Sets.{Sets}
use fxi.Index.Segments.{
  Segment, place, might_contain_trigrams, sorted_trigrams, intersect_loop, docs_of_sorted,
  segment_docs, reduce_segments, get_trigram_docs_with_bloom,
}

module _ (hash_pair : ℕ → ℕ × ℕ) (sets : Sets) where
  open sets use {B, contains, new, or_of, contains-new, contains-or_of, contains-is_empty}

  -- A document has every trigram in a segment.
  abbrev pub has_trigrams : Segment sets → List ℕ → ℕ → Bool
  has_trigrams s [] d = true
  has_trigrams s (t ∷ ts) d = contains (Segment.get_trigram_docs s t) d && has_trigrams s ts d

  abbrev pub in_some_segment : List (Segment sets) → List ℕ → ℕ → Bool
  in_some_segment [] ts d = false
  in_some_segment (s ∷ ss) ts d = has_trigrams s ts d || in_some_segment ss ts d

  -- The filter of a segment misses no trigram that has a posting for the document.
  abbrev pub IsCovered : ℕ → Segment sets → Type 0
  IsCovered d s =
      (t : ℕ)
      → contains (Segment.get_trigram_docs s t) d ≡ true
      → might_contain_trigrams hash_pair sets s (t ∷ []) ≡ true

  abbrev has_pairs : Segment sets → List (ℕ × ℕ) → ℕ → Bool
  has_pairs s [] d = true
  has_pairs s (p ∷ ps) d = contains (Segment.get_trigram_docs s p.0) d && has_pairs s ps d

  has_pairs-place :
      (s : Segment sets) (p : ℕ × ℕ) (ps : List (ℕ × ℕ)) (d : ℕ)
      → has_pairs s (place p ps) d
        ≡ (contains (Segment.get_trigram_docs s p.0) d && has_pairs s ps d)
  unfolding place
  has_pairs-place s p [] d = refl
  has_pairs-place s p (q ∷ qs) d =
      let ih = has_pairs-place s p qs d in
      elim (Bool-cases (leb p.1 q.1)) [ inl e ↦ rw e refl | inr e ↦ rw e (ground arith) ]

  has_pairs-sorted_trigrams :
      (s : Segment sets) (ts : List ℕ) (d : ℕ)
      → has_pairs s (sorted_trigrams hash_pair sets s ts) d ≡ has_trigrams s ts d
  unfolding sorted_trigrams
  has_pairs-sorted_trigrams s [] d = refl
  has_pairs-sorted_trigrams s (t ∷ ts) d =
      let ih = has_pairs-sorted_trigrams s ts d in
      let step =
        has_pairs-place s (t, Segment.get_trigram_doc_freq s t)
          (sorted_trigrams hash_pair sets s ts) d in
      ground arith

  contains-intersect_loop :
      (s : Segment sets) (ps : List (ℕ × ℕ)) (b : B) (d : ℕ)
      → contains (intersect_loop hash_pair sets s ps b) d ≡ (contains b d && has_pairs s ps d)
  unfolding intersect_loop
  contains-intersect_loop s [] b d = ground arith
  contains-intersect_loop s ((t, freq) ∷ ps) b d =
      let ih = contains-intersect_loop s ps (Segment.get_trigram_docs_intersect s t b) d in
      let both = Segment.contains-get_trigram_docs_intersect s t b d in
      elim (Bool-cases (Sets.is_empty sets b)) [
        | inl e ↦ let gone = contains-is_empty b d e in ground arith
        | inr e ↦ ground arith
      ]

  docs_of_place :
      (s : Segment sets) (p : ℕ × ℕ) (ps : List (ℕ × ℕ)) (d : ℕ)
      → contains (docs_of_sorted hash_pair sets s (place p ps)) d ≡ has_pairs s (place p ps) d
  unfolding place
  docs_of_place s p [] d = contains-intersect_loop s [] (Segment.get_trigram_docs s p.0) d
  docs_of_place s p (q ∷ qs) d = elim (Bool-cases (leb p.1 q.1)) [
    | inl e ↦ rw e (contains-intersect_loop s (q ∷ qs) (Segment.get_trigram_docs s p.0) d)
    | inr e ↦ rw e (contains-intersect_loop s (place p qs) (Segment.get_trigram_docs s q.0) d)
  ]

  contains-segment_docs :
      (s : Segment sets) (t : ℕ) (ts : List ℕ) (d : ℕ)
      → contains (segment_docs hash_pair sets s (t ∷ ts)) d ≡ has_trigrams s (t ∷ ts) d
  unfolding segment_docs sorted_trigrams
  contains-segment_docs s t ts d =
      let found =
        docs_of_place s (t, Segment.get_trigram_doc_freq s t) (sorted_trigrams hash_pair sets s ts)
          d in
      let same = has_pairs-sorted_trigrams s (t ∷ ts) d in ground arith

  might_contain_trigrams-cons :
      (s : Segment sets) (t : ℕ) (ts : List ℕ)
      → might_contain_trigrams hash_pair sets s (t ∷ ts) ≡ (
          might_contain_trigrams hash_pair sets s (t ∷ [])
          && might_contain_trigrams hash_pair sets s ts)
  unfolding might_contain_trigrams might_contain_all
  might_contain_trigrams-cons s t ts = elim (Option-cases (Segment.bloom_filter s)) [
    | inl e ↦ rw e refl
    | inr (bf, e) ↦ rw e (ground arith)
  ]

  might_contain_trigrams-nil :
      (s : Segment sets) → might_contain_trigrams hash_pair sets s [] ≡ true
  unfolding might_contain_trigrams might_contain_all
  might_contain_trigrams-nil s = elim (Option-cases (Segment.bloom_filter s)) [
    | inl e ↦ rw e refl
    | inr (bf, e) ↦ rw e refl
  ]

  -- A segment whose filter rejects the trigrams has no document with all of them.
  has_trigrams-rejected :
      (s : Segment sets) (ts : List ℕ) (d : ℕ)
      → IsCovered d s
      → has_trigrams s ts d ≡ true
      → might_contain_trigrams hash_pair sets s ts ≡ true
  has_trigrams-rejected s [] d c h = might_contain_trigrams-nil s
  has_trigrams-rejected s (t ∷ ts) d c h =
      let ih = has_trigrams-rejected s ts d c (ground arith) in
      let here = c t (ground arith) in let step = might_contain_trigrams-cons s t ts in ground arith

  -- What a segment adds.
  abbrev part : Segment sets → List ℕ → B → B
  part s ts other =
      if might_contain_trigrams hash_pair sets s ts then segment_docs hash_pair sets s ts else other

  contains-reduce_segments :
      (ss : List (Segment sets)) (t : ℕ) (ts : List ℕ) (d : ℕ)
      → All (IsCovered d) ss
      → contains (reduce_segments hash_pair sets ss (t ∷ ts)) d ≡ in_some_segment ss (t ∷ ts) d
  unfolding reduce_segments
  contains-reduce_segments [] t ts d c = contains-new d
  contains-reduce_segments (s ∷ ss) t ts d (c, cs) =
      let ih = contains-reduce_segments ss t ts d cs in
      let here = contains-segment_docs s t ts d in
      let both =
        contains-or_of (segment_docs hash_pair sets s (t ∷ ts))
          (reduce_segments hash_pair sets ss (t ∷ ts)) d in
      let rejected = has_trigrams-rejected s (t ∷ ts) d c in
      elim (Bool-cases (might_contain_trigrams hash_pair sets s (t ∷ ts))) [
        | inl e ↦ rw e (ground arith)
        | inr e ↦ rw e (ground arith)
      ]

  -- If the filters of the segments miss no trigram of a document, the trigrams that are looked up,
  -- at least one, find it exactly if some segment has a posting for it under each of them: neither
  -- the filters, nor the order by frequency, nor the early end of the intersection, nor the number
  -- of segments changes what is found.
  pub contains-get_trigram_docs_with_bloom :
      (valid_doc_ids : B) (ss : List (Segment sets)) (t : ℕ) (ts : List ℕ) (d : ℕ)
      → All (IsCovered d) ss
      → contains (get_trigram_docs_with_bloom hash_pair sets valid_doc_ids ss (t ∷ ts)) d
        ≡ in_some_segment ss (t ∷ ts) d
  unfolding get_trigram_docs_with_bloom
  contains-get_trigram_docs_with_bloom valid [] t ts d c = contains-new d
  contains-get_trigram_docs_with_bloom valid (s ∷ []) t ts d (c, cs) =
      let here = contains-segment_docs s t ts d in
      let none_new = contains-new d in
      let rejected = has_trigrams-rejected s (t ∷ ts) d c in
      elim (Bool-cases (might_contain_trigrams hash_pair sets s (t ∷ ts))) [
        | inl e ↦ rw e (ground arith)
        | inr e ↦ rw e (ground arith)
      ]
  contains-get_trigram_docs_with_bloom valid (s ∷ r ∷ ss) t ts d c =
      contains-reduce_segments (s ∷ r ∷ ss) t ts d c
