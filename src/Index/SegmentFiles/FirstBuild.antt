-- ===== src/Index/SegmentFiles/FirstBuild.antt =====
-- The files of the first build are those of the shared writer, and a trigram lookup in them finds the
-- documents of the pairs.
use fxi.Base.{
  ℕ, suc, ◌+◌, ◌^◌, ◌<◌, ◌≡◌, refl, sym, ap, ◌∙◌, arith, true, none, some, List, [], ◌∷◌, ◌++◌,
  length, All, ◌==◌, Bool-cases, inl, inr,
}
use fxi.Base.Keys.{nat_eq, mem, find}
use fxi.Base.Sorting.{dedup_after, dedup, mem-dedup}
use fxi.Encoding.Bitmap.{Bitmap}
use fxi.Query.Sets.{Sets}
use fxi.Utils.Tokenizer.{u32}
use fxi.Index.Delta.{or_empty}
use fxi.Index.Documents.{to_le}
use fxi.Index.Postings.{get_docs}
use fxi.Index.SegmentFiles.{is_sorted, encode_postings}
use fxi.Index.SegmentFiles.Dictionaries.{
  GramEntry, omit_stop_grams, write_grams, write_trigram_index, read_trigram_dict, u64,
}
use fxi.Index.SegmentFiles.Layout.{AreIds, AllIds, is_sorted-dedup_after, dedup_after-AreIds}
use fxi.Index.SegmentFiles.Grams.{gram_dictionary, AreTrigrams, get_docs-write_trigram_index}
use fxi.Index.SegmentFiles.Flat.{
  groups_of, unique_after, encode_group, write_groups, write_trigram_index_flat,
}
use fxi.Index.SegmentFiles.Groups.{are_sorted, has_pair, AreGroups, ArePairs, groups_of-AreGroups}

unique_after-dedup_after : (x : ℕ) (ids : List ℕ) → unique_after (some x) ids ≡ dedup_after x ids
unique_after-dedup_after x [] = refl
unique_after-dedup_after x (y ∷ ys) = elim (Bool-cases (x == y)) [
  | inl e ↦ rw e (unique_after-dedup_after y ys)
  | inr e ↦ rw e (ap (λ zs. y ∷ zs) (unique_after-dedup_after y ys))
]

unique_after-dedup : (ids : List ℕ) → unique_after none ids ≡ dedup ids
unfolding dedup
unique_after-dedup [] = refl
unique_after-dedup (x ∷ xs) = ap (λ zs. x ∷ zs) (unique_after-dedup_after x xs)

-- The groups without repeated ids.
unfoldable unique_groups : List (ℕ × List ℕ) → List (ℕ × List ℕ)
unique_groups [] = []
unique_groups ((t, ids) ∷ groups) = (t, dedup ids) ∷ unique_groups groups

sorted_dedup : (ids : List ℕ) → is_sorted ids ≡ true → is_sorted (dedup ids) ≡ true
unfolding dedup
sorted_dedup [] h = refl
sorted_dedup (x ∷ xs) h = is_sorted-dedup_after x xs h

encode_group-encode_postings :
    (ids : List ℕ)
    → is_sorted ids ≡ true
    → encode_group ids ≡ ((encode_postings (dedup ids)).0, u32 (encode_postings (dedup ids)).1)
unfolding encode_postings
encode_group-encode_postings ids h = rw (unique_after-dedup ids, sorted_dedup ids h) refl

-- An entry in front of the files of the others.
abbrev joined_files : ℕ → ℕ → List ℕ × ℕ → List ℕ × List ℕ → List ℕ × List ℕ
joined_files t offset e files = (
  to_le 4 t ++ (to_le 8 offset ++ (to_le 4 (u32 (length e.0)) ++ (to_le 4 e.1 ++ files.0))),
  e.0 ++ files.1,
)

abbrev posted_ids : List ℕ → List ℕ × ℕ
posted_ids ids = ((encode_postings ids).0, u32 (encode_postings ids).1)

write_groups_cons :
    (offset t : ℕ) (ids : List ℕ) (groups : List (ℕ × List ℕ))
    → write_groups offset ((t, ids) ∷ groups)
      ≡ joined_files t offset
          (encode_group ids)
          (write_groups (u64 (offset + length (encode_group ids).0)) groups)
unfolding write_groups
write_groups_cons offset t ids groups = refl

write_grams_cons :
    (offset t : ℕ) (ids : List ℕ) (postings : List (ℕ × List ℕ))
    → write_grams offset ((t, ids) ∷ postings)
      ≡ joined_files t offset
          (posted_ids ids)
          (write_grams (u64 (offset + length (posted_ids ids).0)) postings)
unfolding write_grams
write_grams_cons offset t ids postings = refl

write_groups-write_grams :
    (offset : ℕ) (groups : List (ℕ × List ℕ))
    → All (λ (g : ℕ × List ℕ). is_sorted g.1 ≡ true) groups
    → write_groups offset groups ≡ write_grams offset (unique_groups groups)
unfolding write_groups write_grams unique_groups
write_groups-write_grams offset [] h = refl
write_groups-write_grams offset ((t, ids) ∷ groups) (sorted, h) =
    write_groups_cons offset t ids groups
    ∙ ap (λ e. joined_files t offset e (write_groups (u64 (offset + length e.0)) groups))
        (encode_group-encode_postings ids sorted)
    ∙ ap (joined_files t offset (posted_ids (dedup ids)))
        (write_groups-write_grams (u64 (offset + length (posted_ids (dedup ids)).0)) groups h)
    ∙ sym (write_grams_cons offset t (dedup ids) (unique_groups groups))

omit_no_stop_grams : (postings : List (ℕ × List ℕ)) → omit_stop_grams none postings ≡ postings
unfolding omit_stop_grams
omit_no_stop_grams [] = refl
omit_no_stop_grams (p ∷ postings) = ap (λ ps. p ∷ ps) (omit_no_stop_grams postings)

dedup-AreIds : (xs : List ℕ) → AreIds xs → AreIds (dedup xs)
unfolding dedup
dedup-AreIds [] h = tt
dedup-AreIds (x ∷ xs) (is, h) = (is, dedup_after-AreIds x xs h)

unique_groups-fit :
    (groups : List (ℕ × List ℕ))
    → AreTrigrams groups
    → AllIds groups
    → AreTrigrams (unique_groups groups)
      × AllIds (unique_groups groups)
      × (length (unique_groups groups) ≡ length groups)
unfolding unique_groups
unique_groups-fit [] keys ids = (tt, tt, refl)
unique_groups-fit ((t, xs) ∷ groups) (key, keys) (are, ids) =
    let (more, all, len) = unique_groups-fit groups keys ids in
    ((key, more), (dedup-AreIds xs are, all), ap suc len)

mem-unique_groups :
    (t d : ℕ) (groups : List (ℕ × List ℕ))
    → mem d (or_empty (find t (unique_groups groups))) ≡ mem d (or_empty (find t groups))
unfolding unique_groups
mem-unique_groups t d [] = refl
mem-unique_groups t d ((u, ids) ∷ groups) = elim (Bool-cases (t == u)) [
  | inl e ↦ rw e (mem-dedup d ids)
  | inr e ↦ rw e (mem-unique_groups t d groups)
]

empty_files : (to_le 4 0, []) ≡ write_trigram_index (unique_groups []) none
unfolding write_trigram_index unique_groups omit_stop_grams write_grams to_le
empty_files = refl

-- The first build writes the files that the shared writer writes for the groups.
write_trigram_index_flat-write_trigram_index :
    (pairs : List (ℕ × ℕ))
    → AreGroups pairs (groups_of pairs)
    → write_trigram_index_flat pairs ≡ write_trigram_index (unique_groups (groups_of pairs)) none
unfolding write_trigram_index_flat write_trigram_index
write_trigram_index_flat-write_trigram_index [] g = empty_files
write_trigram_index_flat-write_trigram_index (p ∷ pairs) g =
    let groups = groups_of (p ∷ pairs) in
    let (keys, ids) = g.fit in
    let (fit, all, len) = unique_groups-fit groups keys ids in
    rw
      (
        omit_no_stop_grams (unique_groups groups),
        len,
        write_groups-write_grams 0 groups g.sorted_ids,
      )
      refl

module _ (roaring : Bitmap) (sets : Sets) (of_bitmap : Bitmap.B roaring → Sets.B sets)
    (as_bitmap : Sets.B sets → Bitmap.B roaring)
    (of_agrees : (b : Bitmap.B roaring) (d : ℕ)
      → Sets.contains sets (of_bitmap b) d ≡ Bitmap.contains roaring b d)
    (as_agrees : (b : Sets.B sets) (d : ℕ)
      → Bitmap.contains roaring (as_bitmap b) d ≡ Sets.contains sets b d) where
  -- Let the two kinds of bitmap hold the same documents, and let the pairs of a trigram and a document
  -- be sorted, fit 32 bits, and be fewer than 2 ^ 32, with a postings file of fewer than 2 ^ 32 bytes.
  -- Then the grams.dict of the first build can be read back, and a lookup in what was read finds a
  -- document under a trigram exactly if the two are one of the pairs.
  pub get_docs-write_trigram_index_flat :
      (pairs : List (ℕ × ℕ)) (t d : ℕ)
      → are_sorted pairs ≡ true
      → ArePairs pairs
      → length pairs < 2 ^ 32
      → length (write_trigram_index_flat pairs).1 < 2 ^ 32
      → (gs : List GramEntry) × (read_trigram_dict (some (write_trigram_index_flat pairs).0)
          ≡ some gs)
        × (Sets.contains sets
              (get_docs roaring sets of_bitmap as_bitmap
                (gram_dictionary gs (write_trigram_index_flat pairs).1)
                t)
              d
            ≡ has_pair t d pairs)
  get_docs-write_trigram_index_flat pairs t d sorted are few small =
      let g = groups_of-AreGroups pairs sorted are in
      let (keys, ids) = g.fit in
      let groups = unique_groups (groups_of pairs) in
      let (fit, all, len) = unique_groups-fit (groups_of pairs) keys ids in
      let same = write_trigram_index_flat-write_trigram_index pairs g in
      let (gs, read, docs) =
        get_docs-write_trigram_index roaring sets of_bitmap as_bitmap of_agrees as_agrees groups
          none t d fit all (omega (arith, g.no_more)) (omega (arith, ap (λ f. length f.1) same)) in
      (
        gs,
        ap (λ f. read_trigram_dict (some f.0)) same ∙ read,
        ap
              (λ f.
                Sets.contains sets
                  (get_docs roaring sets of_bitmap as_bitmap (gram_dictionary gs f.1) t) d)
              same
            ∙ docs
            ∙ mem-unique_groups t d (groups_of pairs)
            ∙ g.same t d,
      )
