-- ===== src/Index/Postings/Lookups.antt =====
-- What the lookups of a segment's postings find.
use fxi.Base.{
  ℕ, ◌≡◌, refl, sym, ◌∙◌, ap, arith, Bool, false, ◌&&◌, ◌||◌, Option, none, some, List, [], ◌∷◌,
  leb, Bool-cases, inl, inr,
}
use fxi.Base.Keys.{Eq, nat_eq, find}
use fxi.Encoding.Bitmap.{Bitmap}
use fxi.Encoding.Delta.{delta_decode}
use fxi.Encoding.Delta.Sets.{
  elem, delta_decode_bitmap-delta_decode, delta_decode_intersect-delta_decode,
}
use fxi.Bloom.{BloomFilter}
use fxi.Index.Segments.{Segment}
use fxi.Query.Text.{Str, Std, str_eq, byte_len}
use fxi.Query.Sets.{Sets}
use fxi.Index.Postings.{
  Entry, Dictionary, bytes_of, docs_in, docs_in_intersect, get_docs, get_docs_intersect,
  containing_loop, get_token_docs_containing_in, reduce, over_segments, get_token_docs,
  get_token_docs_containing,
}

-- The documents of an entry's bytes.
abbrev pub listed_in : ℕ → Option (List ℕ) → Bool
listed_in d none = false
listed_in d (some values) = elem d values

abbrev pub posted : Option (List ℕ) → Option (List ℕ)
posted none = none
posted (some bytes) = delta_decode bytes

-- Whether a segment's posting list of a key, decoded whole, has a document.
abbrev pub has_posting : {K : Type 0} ⦃e : Eq K⦄ → Dictionary K → K → ℕ → Bool
has_posting dict key d = listed_in d (posted (bytes_of dict.postings (find key dict.entries)))

abbrev pub any_segment : (Dictionary Str → Bool) → List (Dictionary Str) → Bool
any_segment test [] = false
any_segment test (s ∷ ss) = test s || any_segment test ss

abbrev pub any_containing : (Str → Str → Bool) → Str → List ℕ → List (Str × Entry) → ℕ → Bool
any_containing finds needle postings [] d = false
any_containing finds needle postings ((token, entry) ∷ entries) d =
    (leb (byte_len needle) (byte_len token)
      && finds needle token
      && listed_in d (posted (bytes_of postings (some entry))))
    || any_containing finds needle postings entries d

module _ (roaring : Bitmap) (sets : Sets) (of_bitmap : Bitmap.B roaring → Sets.B sets)
    (as_bitmap : Sets.B sets → Bitmap.B roaring)
    (of_agrees : (b : Bitmap.B roaring) (d : ℕ)
      → Sets.contains sets (of_bitmap b) d ≡ Bitmap.contains roaring b d)
    (as_agrees : (b : Sets.B sets) (d : ℕ)
      → Bitmap.contains roaring (as_bitmap b) d ≡ Sets.contains sets b d) where
  docs_in-posted :
      (bytes : Option (List ℕ)) (d : ℕ)
      → Sets.contains sets (docs_in roaring sets of_bitmap as_bitmap bytes) d
        ≡ listed_in d (posted bytes)
  docs_in-posted none d = sets.contains-new d
  docs_in-posted (some bytes) d =
      let (b, values, run, list, same) = delta_decode_bitmap-delta_decode roaring bytes in
      rw (run, list) (of_agrees b d ∙ same d)

  docs_in_intersect-posted :
      (bytes : Option (List ℕ)) (filter : Sets.B sets) (d : ℕ)
      → Sets.contains sets (docs_in_intersect roaring sets of_bitmap as_bitmap filter bytes) d
        ≡ (listed_in d (posted bytes) && Sets.contains sets filter d)
  docs_in_intersect-posted none filter d = sets.contains-new d
  docs_in_intersect-posted (some bytes) filter d =
      let (b, values, run, list, same) =
        delta_decode_intersect-delta_decode roaring bytes (as_bitmap filter) in
      rw (run, list) (of_agrees b d ∙ same d ∙ ap (λ t. elem d values && t) (as_agrees filter d))

  module _ {K : Type 0} ⦃e : Eq K⦄ where
    pub get_docs-has_posting :
        (dict : Dictionary K) (key : K) (d : ℕ)
        → Sets.contains sets (get_docs roaring sets of_bitmap as_bitmap dict key) d
          ≡ has_posting dict key d
    unfolding get_docs
    get_docs-has_posting dict key d =
        docs_in-posted (bytes_of dict.postings (find key dict.entries)) d

    -- If the two kinds of bitmap hold the same documents, the lookup that intersects while it decodes
    -- finds what the plain lookup finds, as far as it is in the filter.
    pub get_docs_intersect-get_docs :
        (dict : Dictionary K) (key : K) (filter : Sets.B sets) (d : ℕ)
        → Sets.contains sets (get_docs_intersect roaring sets of_bitmap as_bitmap dict key filter) d
          ≡ (Sets.contains sets (get_docs roaring sets of_bitmap as_bitmap dict key) d
              && Sets.contains sets filter d)
    unfolding get_docs_intersect
    get_docs_intersect-get_docs dict key filter d =
        docs_in_intersect-posted (bytes_of dict.postings (find key dict.entries)) filter d
        ∙ ap (λ t. t && Sets.contains sets filter d) (sym (get_docs-has_posting dict key d))

  -- The segment that a trigram lookup works on.
  unfoldable pub segment_of : Option BloomFilter → Dictionary ℕ → (ℕ → ℕ) → Segment sets
  segment_of filter dict freq = record {
    bloom_filter = filter;
    get_trigram_docs = get_docs roaring sets of_bitmap as_bitmap dict;
    get_trigram_docs_intersect = get_docs_intersect roaring sets of_bitmap as_bitmap dict;
    get_trigram_doc_freq = freq;
    contains-get_trigram_docs_intersect = get_docs_intersect-get_docs dict;
  }

  module _ (std : Std) (finds : (needle token : Str) → Bool) where
    reduce-any_segment :
        (lookup : Dictionary Str → Sets.B sets) (test : Dictionary Str → Bool) (d : ℕ)
        → ((s : Dictionary Str) → Sets.contains sets (lookup s) d ≡ test s)
        → (ss : List (Dictionary Str))
        → Sets.contains sets (reduce roaring sets of_bitmap as_bitmap std finds lookup ss) d
          ≡ any_segment test ss
    reduce-any_segment lookup test d h [] = sets.contains-new d
    reduce-any_segment lookup test d h (s ∷ ss) =
        sets.contains-or_of (lookup s) (reduce roaring sets of_bitmap as_bitmap std finds lookup ss)
          d
        ∙ rw (h s, reduce-any_segment lookup test d h ss) refl

    over_segments-any_segment :
        (lookup : Dictionary Str → Sets.B sets) (test : Dictionary Str → Bool) (d : ℕ)
        → ((s : Dictionary Str) → Sets.contains sets (lookup s) d ≡ test s)
        → (ss : List (Dictionary Str))
        → Sets.contains sets (over_segments roaring sets of_bitmap as_bitmap std finds lookup ss) d
          ≡ any_segment test ss
    over_segments-any_segment lookup test d h [] = sets.contains-new d
    over_segments-any_segment lookup test d h (s ∷ []) = h s ∙ ground arith
    over_segments-any_segment lookup test d h (s ∷ r ∷ ss) =
        reduce-any_segment lookup test d h (s ∷ r ∷ ss)

    containing_loop-any_containing :
        (needle : Str) (postings : List ℕ) (entries : List (Str × Entry)) (result : Sets.B sets)
        (d : ℕ)
        → Sets.contains sets
            (containing_loop roaring sets of_bitmap as_bitmap std finds needle postings entries
              result)
            d
          ≡ (Sets.contains sets result d || any_containing finds needle postings entries d)
    unfolding containing_loop
    containing_loop-any_containing needle postings [] result d = ground arith
    containing_loop-any_containing needle postings ((token, entry) ∷ entries) result d =
        let docs = docs_in roaring sets of_bitmap as_bitmap (bytes_of postings (some entry)) in
        let more = sets.contains-or_of result docs d in
        let here = docs_in-posted (bytes_of postings (some entry)) d in
        elim (Bool-cases (leb (byte_len needle) (byte_len token) && finds needle token)) [
          | inl is ↦ rw is (
              containing_loop-any_containing needle postings entries (sets.or_of result docs) d
              ∙ ground arith)
          | inr other ↦
              rw other
                (containing_loop-any_containing needle postings entries result d ∙ ground arith)
        ]

    -- Let the two kinds of bitmap hold the same documents. Then a token lookup finds a document
    -- exactly if some segment's posting list of the lowercase token, decoded whole, has it; and a
    -- substring lookup finds it exactly if in some segment the posting list of a token has it that
    -- is at least as long as the lowercase needle and in which the needle is found.
    pub get_token_docs-any_segment :
        (segments : List (Dictionary Str)) (token : Str) (d : ℕ)
        → (Sets.contains sets
              (get_token_docs roaring sets of_bitmap as_bitmap std finds segments token)
              d
            ≡ any_segment
                (λ (s : Dictionary Str). has_posting s (Std.to_lowercase std token) d)
                segments)
          × (Sets.contains sets
                (get_token_docs_containing roaring sets of_bitmap as_bitmap std finds segments
                  token)
                d
              ≡ any_segment
                  (λ (s : Dictionary Str).
                    any_containing finds (Std.to_lowercase std token) s.postings s.entries d)
                  segments)
    unfolding get_token_docs get_token_docs_containing get_token_docs_containing_in
    get_token_docs-any_segment segments token d =
        let lowered = Std.to_lowercase std token in
        (
          over_segments-any_segment
              (λ (s : Dictionary Str). get_docs roaring sets of_bitmap as_bitmap s lowered)
              (λ (s : Dictionary Str). has_posting s lowered d) d
              (λ s. get_docs-has_posting s lowered d) segments,
          over_segments-any_segment
              (get_token_docs_containing_in roaring sets of_bitmap as_bitmap std finds lowered)
              (λ (s : Dictionary Str). any_containing finds lowered s.postings s.entries d) d
              (λ s.
                containing_loop-any_containing lowered s.postings s.entries sets.new d
                ∙ ground (arith, sets.contains-new d))
              segments,
        )
