-- ===== src/Index/Compaction/Merged.antt =====
-- Which documents the merged postings hold.
use fxi.Base.{
  ℕ, ◌≡◌, refl, ◌∙◌, ap, arith, Bool, false, ◌&&◌, ◌||◌, Option, none, some, List, [], ◌∷◌, ◌++◌,
  ◌==◌, Bool-cases, Option-cases, inl, inr,
}
use fxi.Base.Keys.{Eq, nat_eq, mem, find, find-put, mem-append}
use fxi.Base.Sorting.{sort, mem-sort, mem-dedup}
use fxi.Index.Delta.{or_empty}
use fxi.Index.Postings.{Entry, bytes_of}
use fxi.Index.Postings.Lookups.{posted}
use fxi.Index.Compaction.{
  DocIdRemapping, DictEntry, SegmentFiles, remap, remap_all, entry_docs, sort_values, merge_ids,
  merge_segment, merge_segments, merge_all_segments,
}

-- Whether a document's new id is n.
abbrev pub becomes : ℕ → Option ℕ → Bool
becomes n none = false
becomes n (some m) = n == m

abbrev pub holds : {K : Type 0} ⦃e : Eq K⦄ → List (K × List ℕ) → K → ℕ → Bool
holds m k n = mem n (or_empty (find k m))

module _ {P : Type 0} (r : DocIdRemapping P) where
  abbrev pub any_becomes : ℕ → List ℕ → Bool
  any_becomes n [] = false
  any_becomes n (old_id ∷ old_ids) = becomes n (remap r old_id) || any_becomes n old_ids

  mem-remap_all : (n : ℕ) (ids : List ℕ) → mem n (remap_all r ids) ≡ any_becomes n ids
  unfolding remap_all
  mem-remap_all n [] = refl
  mem-remap_all n (old_id ∷ old_ids) = elim (Option-cases (remap r old_id)) [
    | inl gone ↦ rw gone (mem-remap_all n old_ids)
    | inr (m, is) ↦ rw is (ap (λ t. n == m || t) (mem-remap_all n old_ids))
  ]

module _ {P K : Type 0} ⦃e : Eq K⦄ (r : DocIdRemapping P) where
  -- The posting list that a search decodes at the place that a dictionary entry names, with the
  -- lookup code of src/index/reader.rs.
  abbrev pub searched : List ℕ → DictEntry K → List ℕ
  searched postings entry =
      let place : Entry = record { offset = entry.offset; entry_length = entry.entry_length } in
      or_empty (posted (bytes_of postings (some place)))

  entry_docs-searched :
      (postings : List ℕ) (entry : DictEntry K)
      → entry_docs postings entry ≡ searched postings entry
  entry_docs-searched postings entry = ground arith

  abbrev pub in_entries : K → ℕ → List ℕ → List (DictEntry K) → Bool
  in_entries k n postings [] = false
  in_entries k n postings (entry ∷ entries) =
      (e.beq entry.key k && any_becomes r n (searched postings entry))
      || in_entries k n postings entries

  -- Whether in some segment a search under the key finds a posting of a document whose new id is n.
  abbrev pub in_segments : K → ℕ → List (SegmentFiles K) → Bool
  in_segments k n [] = false
  in_segments k n (s ∷ segments) = in_entries k n s.postings s.entries || in_segments k n segments

  holds-merge_ids :
      (key k : K) (n : ℕ) (ids : List ℕ) (m : List (K × List ℕ))
      → holds (merge_ids r key ids m) k n ≡ (holds m k n || (e.beq key k && mem n ids))
  holds-merge_ids key k n [] m = ground arith
  holds-merge_ids key k n (x ∷ xs) m =
      let here = find-put key k (or_empty (find key m) ++ (x ∷ xs)) m in
      let grown = mem-append n (or_empty (find key m)) (x ∷ xs) in
      elim (Bool-cases (e.beq key k)) [
        | inl same ↦
            let one : key ≡ k = (e.beq_iff key k).0 same in
            rw (here, same)
              (grown ∙ ap (λ j. mem n (or_empty (find j m)) || (n == x || mem n xs)) one)
        | inr other ↦ rw (here, other) (ground arith)
      ]

  merge_segment-in_entries :
      (postings : List ℕ) (entries : List (DictEntry K)) (k : K) (n : ℕ) (m : List (K × List ℕ))
      → holds (merge_segment r postings entries m) k n
        ≡ (holds m k n || in_entries k n postings entries)
  unfolding merge_segment
  merge_segment-in_entries postings [] k n m = ground arith
  merge_segment-in_entries postings (entry ∷ entries) k n m =
      let ids = entry_docs postings entry in
      let read = entry_docs-searched postings entry in
      let first = holds-merge_ids entry.key k n (remap_all r ids) m in
      let rest =
        merge_segment-in_entries postings entries k n (merge_ids r entry.key (remap_all r ids) m) in
      let same = mem-remap_all r n ids in ground arith

  merge_segments-in_segments :
      (segments : List (SegmentFiles K)) (k : K) (n : ℕ) (m : List (K × List ℕ))
      → holds (merge_segments r segments m) k n ≡ (holds m k n || in_segments k n segments)
  unfolding merge_segments
  merge_segments-in_segments [] k n m = ground arith
  merge_segments-in_segments (s ∷ segments) k n m =
      let first = merge_segment-in_entries s.postings s.entries k n m in
      let rest = merge_segments-in_segments segments k n (merge_segment r s.postings s.entries m) in
      ground arith

  holds-sort_values :
      (k : K) (n : ℕ) (m : List (K × List ℕ)) → holds (sort_values m) k n ≡ holds m k n
  holds-sort_values k n [] = refl
  holds-sort_values k n ((j, ids) ∷ m) = elim (Bool-cases (e.beq k j)) [
    | inl same ↦ rw same (mem-dedup n (sort ids) ∙ mem-sort n ids)
    | inr other ↦ rw other (holds-sort_values k n m)
  ]

  -- Under each key the merged postings hold a new id exactly if in some segment the posting list
  -- that a search decodes for an entry of that key has a document that got this new id: a merge
  -- loses no posting of a document that stays, and adds none.
  pub merge_all_segments-in_segments :
      (segments : List (SegmentFiles K)) (k : K) (n : ℕ)
      → holds (merge_all_segments r segments) k n ≡ in_segments k n segments
  unfolding merge_all_segments
  merge_all_segments-in_segments segments k n =
      holds-sort_values k n (merge_segments r segments [])
      ∙ merge_segments-in_segments segments k n []
