-- ===== src/Index/Segments/Runs.antt =====
-- Runs of the trigram lookup of src/index/reader.rs, and its theorem at a concrete input.
use fxi.Base.{
  ℕ, ◌+◌, ◌≡◌, refl, arith, true, none, some, List, [], ◌∷◌, ◌==◌, if◌then◌else◌, ==_iff,
  Bool-cases, inl, inr,
}
use fxi.Bloom.{
  with_params, insert, insert_loop, set_bit, might_contain, might_contain_all, contain_loop,
  test_bit,
}
use fxi.Query.Sets.{elem}
use fxi.Query.Sets.Lists.{lists, retain, elem-retain}
use fxi.Index.Segments.{
  Segment, place, might_contain_trigrams, sorted_trigrams, intersect_loop, segment_docs,
  reduce_segments, get_trigram_docs_with_bloom,
}
use fxi.Index.Segments.Trigrams.{IsCovered, in_some_segment, contains-get_trigram_docs_with_bloom}

abbrev hashes : ℕ → ℕ × ℕ
hashes item = (item, item + 1)

abbrev postings : ℕ → List ℕ
postings t = if t == 7 then 1 ∷ 2 ∷ [] else []

-- A segment with postings for the trigram 7 and a filter that holds it.
abbrev filtered : Segment lists
filtered = record {
  bloom_filter = some (insert hashes (with_params 64 2) 7);
  get_trigram_docs = postings;
  get_trigram_docs_intersect = λ t. λ b. retain (λ (x : ℕ). elem x b) (postings t);
  get_trigram_doc_freq = λ t. if t == 7 then 2 else 0;
  contains-get_trigram_docs_intersect =
      λ t. λ b. λ d. elem-retain (λ (x : ℕ). elem x b) (postings t) d;
}

-- A segment without a filter, where every trigram is in document 3.
abbrev unfiltered : Segment lists
unfiltered = record {
  bloom_filter = none;
  get_trigram_docs = λ t. 3 ∷ [];
  get_trigram_docs_intersect = λ t. λ b. retain (λ (x : ℕ). elem x b) (3 ∷ []);
  get_trigram_doc_freq = λ t. 1;
  contains-get_trigram_docs_intersect = λ t. λ b. λ d. elem-retain (λ (x : ℕ). elem x b) (3 ∷ []) d;
}

found_in_unfiltered :
    get_trigram_docs_with_bloom hashes lists [] (filtered ∷ unfiltered ∷ []) (7 ∷ 9 ∷ []) ≡ 3 ∷ []
unfolding get_trigram_docs_with_bloom reduce_segments might_contain_trigrams might_contain_all
    might_contain contain_loop test_bit insert insert_loop set_bit with_params segment_docs
    sorted_trigrams place intersect_loop retain
found_in_unfiltered = refl

might_contain_7 : might_contain_trigrams hashes lists filtered (7 ∷ []) ≡ true
unfolding might_contain_trigrams might_contain_all might_contain contain_loop test_bit insert
    insert_loop set_bit with_params
might_contain_7 = refl

filtered-IsCovered : IsCovered hashes lists 2 filtered
filtered-IsCovered t h = elim (Bool-cases (t == 7)) [
  | inl e ↦ rw ((==_iff t 7).0 e) might_contain_7
  | inr e ↦ absurd (ground arith)
]

unfiltered-IsCovered : IsCovered hashes lists 2 unfiltered
unfolding might_contain_trigrams
unfiltered-IsCovered t h = refl

contains-get_trigram_docs_with_bloom_example :
    elem 2 (get_trigram_docs_with_bloom hashes lists [] (filtered ∷ unfiltered ∷ []) (7 ∷ []))
    ≡ in_some_segment hashes lists (filtered ∷ unfiltered ∷ []) (7 ∷ []) 2
contains-get_trigram_docs_with_bloom_example =
    contains-get_trigram_docs_with_bloom hashes lists [] (filtered ∷ unfiltered ∷ []) 7 [] 2
      (filtered-IsCovered, (unfiltered-IsCovered, tt))
