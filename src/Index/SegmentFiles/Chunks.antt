-- ===== src/Index/SegmentFiles/Chunks.antt =====
-- src/index/writer.rs, process_and_write_segment: the trigrams of the files of a chunk, sorted and
-- written.
use fxi.Base.{
  ℕ, suc, ◌^◌, ◌<◌, ◌≡◌, refl, ap, ◌∙◌, arith, Bool, true, false, ◌&&◌, ◌||◌, some, List, [], ◌∷◌,
  ◌++◌, length, All, All-append, ltb, leb, ◌==◌, if◌then◌else◌, Bool-cases, inl, inr,
}
use fxi.Base.Keys.{nat_eq, mem}
use fxi.Encoding.Bitmap.{Bitmap}
use fxi.Query.Text.{Str}
use fxi.Query.Sets.{Sets}
use fxi.Index.Postings.{get_docs}
use fxi.Index.SegmentFiles.Dictionaries.{GramEntry, read_trigram_dict}
use fxi.Index.SegmentFiles.Grams.{gram_dictionary}
use fxi.Index.SegmentFiles.Flat.{write_trigram_index_flat}
use fxi.Index.SegmentFiles.Groups.{are_sorted, has_pair, ArePairs}
use fxi.Index.SegmentFiles.FirstBuild.{get_docs-write_trigram_index_flat}

-- What a file brings into a segment, with the id that it was given.
pub record AssignedFile : Type 0 where
  pub doc_id : ℕ
  pub trigrams : List ℕ
  pub tokens : List Str
  pub line_offsets : List ℕ
  pub token_positions : List (ℕ × ℕ)

unfoldable pub pairs_with : ℕ → List ℕ → List (ℕ × ℕ)
pairs_with doc_id [] = []
pairs_with doc_id (t ∷ ts) = (t, doc_id) ∷ pairs_with doc_id ts

unfoldable pub trigram_pairs : List AssignedFile → List (ℕ × ℕ)
unfolding pairs_with
trigram_pairs [] = []
trigram_pairs (f ∷ files) = pairs_with f.doc_id f.trigrams ++ trigram_pairs files

-- par_sort_unstable on pairs
abbrev pub pair_le : ℕ × ℕ → ℕ × ℕ → Bool
pair_le p q = ltb p.0 q.0 || (p.0 == q.0 && leb p.1 q.1)

abbrev pub insert_pair : ℕ × ℕ → List (ℕ × ℕ) → List (ℕ × ℕ)
insert_pair p [] = p ∷ []
insert_pair p (q ∷ pairs) = if pair_le p q then p ∷ q ∷ pairs else q ∷ insert_pair p pairs

unfoldable pub sort_pairs : List (ℕ × ℕ) → List (ℕ × ℕ)
sort_pairs [] = []
sort_pairs (p ∷ pairs) = insert_pair p (sort_pairs pairs)

-- grams.dict and grams.postings of a chunk
unfoldable pub write_segment_trigrams : List AssignedFile → List ℕ × List ℕ
unfolding trigram_pairs sort_pairs write_trigram_index_flat
write_segment_trigrams files = write_trigram_index_flat (sort_pairs (trigram_pairs files))

are_sorted-insert_pair :
    (p : ℕ × ℕ) (pairs : List (ℕ × ℕ))
    → are_sorted pairs ≡ true
    → are_sorted (insert_pair p pairs) ≡ true
are_sorted-insert_pair p [] h = refl
are_sorted-insert_pair p (q ∷ []) h = elim (Bool-cases (pair_le p q)) [
  | inl e ↦ rw e (ground arith)
  | inr e ↦ rw e (ground arith)
]
are_sorted-insert_pair p (q ∷ r ∷ pairs) h =
    let ih = are_sorted-insert_pair p (r ∷ pairs) (ground arith) in
    elim (Bool-cases (pair_le p q)) [
      | inl e ↦ rw e (ground arith)
      | inr e ↦ elim (Bool-cases (pair_le p r)) [
        | inl f ↦ let ih' = rw f at ih in rw (e, f) (ground arith)
        | inr f ↦ let ih' = rw f at ih in rw (e, f) (ground arith)
      ]
    ]

has_pair-insert_pair :
    (t d : ℕ) (p : ℕ × ℕ) (pairs : List (ℕ × ℕ))
    → has_pair t d (insert_pair p pairs) ≡ has_pair t d (p ∷ pairs)
has_pair-insert_pair t d p [] = refl
has_pair-insert_pair t d p (q ∷ pairs) = elim (Bool-cases (pair_le p q)) [
  | inl e ↦ rw e refl
  | inr e ↦ let ih = has_pair-insert_pair t d p pairs in rw (e, ih) (ground arith)
]

insert_pair-ArePairs :
    (p : ℕ × ℕ) (pairs : List (ℕ × ℕ))
    → ArePairs (p ∷ pairs)
    → ArePairs (insert_pair p pairs) × (length (insert_pair p pairs) ≡ suc (length pairs))
insert_pair-ArePairs p [] are = (are, refl)
insert_pair-ArePairs p (q ∷ pairs) (is, (first, are)) =
    let (more, len) = insert_pair-ArePairs p pairs (is, are) in
    elim (Bool-cases (pair_le p q)) [
      | inl e ↦ rw e ((is, (first, are)), refl)
      | inr e ↦ rw e ((first, more), ap suc len)
    ]

record AreSortedPairs (sorted pairs : List (ℕ × ℕ)) : Type 0 where
  in_order : are_sorted sorted ≡ true
  fit : ArePairs sorted
  as_many : length sorted ≡ length pairs
  same : (t d : ℕ) → has_pair t d sorted ≡ has_pair t d pairs

sort_pairs-AreSortedPairs :
    (pairs : List (ℕ × ℕ)) → ArePairs pairs → AreSortedPairs (sort_pairs pairs) pairs
unfolding sort_pairs
sort_pairs-AreSortedPairs [] are = record {
  in_order = refl;
  fit = tt;
  as_many = refl;
  same = λ t. λ d. refl;
}
sort_pairs-AreSortedPairs (p ∷ pairs) (is, are) =
    let s = sort_pairs-AreSortedPairs pairs are in
    let (fit, len) = insert_pair-ArePairs p (sort_pairs pairs) (is, s.fit) in
    record {
      in_order = are_sorted-insert_pair p (sort_pairs pairs) s.in_order;
      fit = fit;
      as_many = len ∙ ap suc s.as_many;
      same = λ t. λ d.
          has_pair-insert_pair t d p (sort_pairs pairs)
          ∙ ap (λ b. (t == p.0 && d == p.1) || b) (s.same t d);
    }

-- Whether a file with the id of a document has a trigram.
abbrev pub in_files : ℕ → ℕ → List AssignedFile → Bool
in_files t d [] = false
in_files t d (f ∷ files) = (d == f.doc_id && mem t f.trigrams) || in_files t d files

has_pair-append :
    (t d : ℕ) (xs ys : List (ℕ × ℕ))
    → has_pair t d (xs ++ ys) ≡ (has_pair t d xs || has_pair t d ys)
has_pair-append t d [] ys = refl
has_pair-append t d (x ∷ xs) ys = let ih = has_pair-append t d xs ys in ground arith

has_pair-pairs_with :
    (t d doc_id : ℕ) (ts : List ℕ) → has_pair t d (pairs_with doc_id ts) ≡ (d == doc_id && mem t ts)
unfolding pairs_with
has_pair-pairs_with t d doc_id [] = ground arith
has_pair-pairs_with t d doc_id (u ∷ ts) = let ih = has_pair-pairs_with t d doc_id ts in ground arith

has_pair-trigram_pairs :
    (t d : ℕ) (files : List AssignedFile) → has_pair t d (trigram_pairs files) ≡ in_files t d files
unfolding trigram_pairs
has_pair-trigram_pairs t d [] = refl
has_pair-trigram_pairs t d (f ∷ files) =
    rw
      (
        has_pair-append t d (pairs_with f.doc_id f.trigrams) (trigram_pairs files),
        has_pair-pairs_with t d f.doc_id f.trigrams,
        has_pair-trigram_pairs t d files,
      )
      refl

-- Ids and trigrams of 32 bits.
abbrev pub AreAssigned : List AssignedFile → Type 0
AreAssigned files =
    All (λ (f : AssignedFile). (f.doc_id < 2 ^ 32) × All (λ t. t < 2 ^ 32) f.trigrams) files

pairs_with-ArePairs :
    (doc_id : ℕ) (ts : List ℕ)
    → doc_id < 2 ^ 32
    → All (λ t. t < 2 ^ 32) ts
    → ArePairs (pairs_with doc_id ts)
unfolding pairs_with
pairs_with-ArePairs doc_id [] fits are = tt
pairs_with-ArePairs doc_id (t ∷ ts) fits (is, are) =
    ((is, fits), pairs_with-ArePairs doc_id ts fits are)

trigram_pairs-ArePairs :
    (files : List AssignedFile) → AreAssigned files → ArePairs (trigram_pairs files)
unfolding trigram_pairs
trigram_pairs-ArePairs [] are = tt
trigram_pairs-ArePairs (f ∷ files) ((fits, is), are) =
    All-append (λ (p : ℕ × ℕ). (p.0 < 2 ^ 32) × (p.1 < 2 ^ 32)) _ _
      (pairs_with-ArePairs f.doc_id f.trigrams fits is) (trigram_pairs-ArePairs files are)

module _ (roaring : Bitmap) (sets : Sets) (of_bitmap : Bitmap.B roaring → Sets.B sets)
    (as_bitmap : Sets.B sets → Bitmap.B roaring)
    (of_agrees : (b : Bitmap.B roaring) (d : ℕ)
      → Sets.contains sets (of_bitmap b) d ≡ Bitmap.contains roaring b d)
    (as_agrees : (b : Sets.B sets) (d : ℕ)
      → Bitmap.contains roaring (as_bitmap b) d ≡ Sets.contains sets b d) where
  -- Let the two kinds of bitmap hold the same documents, let the ids and the trigrams of the files of
  -- a chunk fit 32 bits, and let them have fewer than 2 ^ 32 trigrams in all and a postings file of
  -- fewer than 2 ^ 32 bytes. Then the grams.dict of the chunk can be read back, and a lookup in what
  -- was read finds a document under a trigram exactly if a file with the document's id has it.
  pub get_docs-write_segment_trigrams :
      (files : List AssignedFile) (t d : ℕ)
      → AreAssigned files
      → length (trigram_pairs files) < 2 ^ 32
      → length (write_segment_trigrams files).1 < 2 ^ 32
      → (gs : List GramEntry) × (read_trigram_dict (some (write_segment_trigrams files).0)
          ≡ some gs)
        × (Sets.contains sets
              (get_docs roaring sets of_bitmap as_bitmap
                (gram_dictionary gs (write_segment_trigrams files).1)
                t)
              d
            ≡ in_files t d files)
  unfolding write_segment_trigrams
  get_docs-write_segment_trigrams files t d are few small =
      let pairs = trigram_pairs files in
      let s = sort_pairs-AreSortedPairs pairs (trigram_pairs-ArePairs files are) in
      let (gs, read, docs) =
        get_docs-write_trigram_index_flat roaring sets of_bitmap as_bitmap of_agrees as_agrees
          (sort_pairs pairs) t d s.in_order s.fit (omega (arith, s.as_many)) small in
      (gs, read, docs ∙ s.same t d ∙ has_pair-trigram_pairs t d files)
