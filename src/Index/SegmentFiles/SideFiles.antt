-- ===== src/Index/SegmentFiles/SideFiles.antt =====
-- linemap.bin and bloom.bin hold what was written to them.
use fxi.Base.{
  ℕ, suc, ◌^◌, ◌<◌, ◌≡◌, refl, subst, ap, ◌∙◌, arith, true, false, not, ◌&&◌, ◌||◌, Option, none,
  some, List, [], ◌∷◌, ◌++◌, length, append_assoc, All, leb, ◌==◌, ==_iff, if◌then◌else◌,
  Bool-cases, inl, inr,
}
use fxi.Base.Keys.{nat_eq, mem, find, put, keys, distinct, find-put, find-absent}
use fxi.Bloom.{BloomFilter, from_raw}
use fxi.Encoding.Delta.{delta_encode}
use fxi.Encoding.Delta.Values.{IsAscending}
use fxi.Encoding.Delta.RoundTrip.{delta_decode-delta_encode}
use fxi.Utils.Tokenizer.{u32}
use fxi.Index.Documents.Stored.{read_le-to_le}
use fxi.Index.SegmentFiles.Tokens.{read_bytes_lem}
use fxi.Index.SegmentFiles.LineMaps.{
  insert_by_id, sort_by_id, write_line_map, write_each_map, write_line_maps, write_line_maps_flat,
  read_line_map, read_each_map, read_line_maps, write_words, write_bloom_file, read_words,
  read_bloom_filter,
}

-- A line map whose fields fit their widths.
abbrev pub IsLineMap : ℕ × List ℕ → Type 0
IsLineMap (doc_id, offsets) =
    (doc_id < 2 ^ 32) × IsAscending 0 offsets × (length (delta_encode offsets []) < 2 ^ 32)

abbrev put_all : List (ℕ × List ℕ) → List (ℕ × List ℕ) → List (ℕ × List ℕ)
put_all [] m = m
put_all ((k, v) ∷ maps) m = put_all maps (put k v m)

read_line_map-write_line_map :
    (doc_id : ℕ) (offsets rest : List ℕ)
    → IsLineMap (doc_id, offsets)
    → read_line_map (write_line_map doc_id offsets ++ rest) ≡ some (doc_id, offsets, rest)
unfolding read_line_map write_line_map
read_line_map-write_line_map doc_id offsets rest (fits, up, short) =
    let encoded = delta_encode offsets [] in
    let same : u32 (length encoded) ≡ length encoded = omega arith in
    let bytes = λ (n v : ℕ) (r : List ℕ) (lt : v < 256 ^ n). read_le-to_le n v r lt in
    simp append_assoc (
      rw
        (
          bytes 4 doc_id _ (omega arith),
          bytes 4 (u32 (length offsets)) _ (omega arith),
          same,
          bytes 4 (length encoded) _ (omega arith),
          read_bytes_lem encoded rest,
          delta_decode-delta_encode offsets up,
        )
        refl)

read_each_map-write_each_map :
    (maps m : List (ℕ × List ℕ))
    → All IsLineMap maps
    → read_each_map (length maps) (write_each_map maps) m ≡ some (put_all maps m)
unfolding read_each_map write_each_map
read_each_map-write_each_map [] m are = refl
read_each_map-write_each_map ((k, v) ∷ maps) m (is, are) =
    rw (read_line_map-write_line_map k v (write_each_map maps) is)
      (read_each_map-write_each_map maps (put k v m) are)

-- The entry of a map before that of another.
abbrev first_of : {A : Type 0} → Option A → Option A → Option A
first_of none o = o
first_of (some a) o = some a

find-put_all :
    (d : ℕ) (maps m : List (ℕ × List ℕ))
    → distinct (keys maps) ≡ true
    → find d (put_all maps m) ≡ first_of (find d maps) (find d m)
find-put_all d [] m h = refl
find-put_all d ((k, v) ∷ maps) m h =
    let ih = find-put_all d maps (put k v m) (ground arith) in
    let here = find-put k d v m in
    elim (Bool-cases (d == k)) [
      | inl e ↦
          let one : k ≡ d = ground arith in
          let absent : find d maps ≡ none =
            find-absent d maps (subst (λ j. mem j (keys maps) ≡ false) one (ground arith)) in
          let hit : (k == d) ≡ true = ground arith in rw (ih, here, absent, e, hit) refl
      | inr e ↦ let miss : (k == d) ≡ false = ground arith in rw (ih, here, e, miss) refl
    ]

find-insert_by_id :
    (d k : ℕ) (v : List ℕ) (maps : List (ℕ × List ℕ))
    → mem k (keys maps) ≡ false
    → find d (insert_by_id (k, v) maps) ≡ (if d == k then some v else find d maps)
find-insert_by_id d k v [] h = refl
find-insert_by_id d k v ((j, w) ∷ maps) h =
    let ih = find-insert_by_id d k v maps (ground arith) in
    elim (Bool-cases (leb k j)) [ inl e ↦ rw e refl | inr e ↦ rw (e, ih) (swapped d k j h) ]
  where
    swapped :
        (d k j : ℕ)
        → (k == j || mem k (keys maps)) ≡ false
        → (if d == j then some w else if d == k then some v else find d maps)
          ≡ (if d == k then some v else if d == j then some w else find d maps)
    swapped d k j h = ground (arith, ==_iff d k, ==_iff d j, ==_iff k j)

mem-keys-insert_by_id :
    (i : ℕ) (x : ℕ × List ℕ) (maps : List (ℕ × List ℕ))
    → mem i (keys (insert_by_id x maps)) ≡ (i == x.0 || mem i (keys maps))
mem-keys-insert_by_id i x [] = refl
mem-keys-insert_by_id i x (y ∷ maps) =
    let ih = mem-keys-insert_by_id i x maps in
    elim (Bool-cases (leb x.0 y.0)) [ inl e ↦ rw e refl | inr e ↦ rw (e, ih) (ground arith) ]

distinct-insert_by_id :
    (x : ℕ × List ℕ) (maps : List (ℕ × List ℕ))
    → distinct (keys (insert_by_id x maps)) ≡ (not (mem x.0 (keys maps)) && distinct (keys maps))
distinct-insert_by_id x [] = refl
distinct-insert_by_id x (y ∷ maps) =
    let ih = distinct-insert_by_id x maps in
    let more = mem-keys-insert_by_id y.0 x maps in
    elim (Bool-cases (leb x.0 y.0)) [
      | inl e ↦ rw e refl
      | inr e ↦ rw (e, ih, more) (ground (arith, ==_iff x.0 y.0, ==_iff y.0 x.0))
    ]

IsLineMap-insert_by_id :
    (x : ℕ × List ℕ) (maps : List (ℕ × List ℕ))
    → IsLineMap x
    → All IsLineMap maps
    → All IsLineMap (insert_by_id x maps) × (length (insert_by_id x maps) ≡ suc (length maps))
IsLineMap-insert_by_id x [] is are = ((is, tt), refl)
IsLineMap-insert_by_id x (y ∷ maps) is (first, are) =
    let (more, len) = IsLineMap-insert_by_id x maps is are in
    elim (Bool-cases (leb x.0 y.0)) [
      | inl e ↦ rw e ((is, (first, are)), refl)
      | inr e ↦ rw e ((first, more), ap suc len)
    ]

-- The sorted maps are the maps.
record IsSortOf (sorted maps : List (ℕ × List ℕ)) : Type 0 where
  fit : All IsLineMap sorted
  as_many : length sorted ≡ length maps
  distinct_ids : distinct (keys sorted) ≡ distinct (keys maps)
  same_ids : (i : ℕ) → mem i (keys sorted) ≡ mem i (keys maps)
  same_found : (d : ℕ) → find d sorted ≡ find d maps

sort_by_id-IsSortOf :
    (maps : List (ℕ × List ℕ))
    → All IsLineMap maps
    → distinct (keys maps) ≡ true
    → IsSortOf (sort_by_id maps) maps
unfolding sort_by_id
sort_by_id-IsSortOf [] are h = record {
  fit = tt;
  as_many = refl;
  distinct_ids = refl;
  same_ids = λ i. refl;
  same_found = λ d. refl;
}
sort_by_id-IsSortOf ((k, v) ∷ maps) (is, are) h =
    let s = sort_by_id-IsSortOf maps are (ground arith) in
    let sorted = sort_by_id maps in
    let (fit, len) = IsLineMap-insert_by_id (k, v) sorted is s.fit in
    let absent : mem k (keys sorted) ≡ false = s.same_ids k ∙ ground arith in
    record {
      fit = fit;
      as_many = len ∙ ap suc s.as_many;
      distinct_ids = distinct-insert_by_id (k, v) sorted ∙ rw (s.same_ids k, s.distinct_ids) refl;
      same_ids = λ i. mem-keys-insert_by_id i (k, v) sorted ∙ rw (s.same_ids i) refl;
      same_found = λ d. find-insert_by_id d k v sorted absent ∙ rw (s.same_found d) refl;
    }

first_of-none : {A : Type 0} (o : Option A) → first_of o none ≡ o
first_of-none none = refl
first_of-none (some a) = refl

-- Let no document have two line maps, in whatever order the hash map gives them, and let them be
-- ascending u32 offsets whose encoding has fewer than 2 ^ 32 bytes, of fewer than 2 ^ 32 documents.
-- Then linemap.bin can be read back, and each document has the line map in it that was written.
pub read_line_maps-write_line_maps :
    (maps : List (ℕ × List ℕ)) (d : ℕ)
    → All IsLineMap maps
    → distinct (keys maps) ≡ true
    → length maps < 2 ^ 32
    → (read : List (ℕ × List ℕ)) × (read_line_maps (some (write_line_maps maps)) ≡ some read)
      × (find d read ≡ find d maps)
unfolding read_line_maps write_line_maps
read_line_maps-write_line_maps maps d are h few =
    let s = sort_by_id-IsSortOf maps are h in
    let sorted = sort_by_id maps in
    let count : u32 (length maps) ≡ length sorted = omega (arith, s.as_many) in
    (
      put_all sorted [],
      rw (count, read_le-to_le 4 (length sorted) (write_each_map sorted) (omega (arith, s.as_many)))
          (read_each_map-write_each_map sorted [] s.fit),
      find-put_all d sorted [] (s.distinct_ids ∙ h)
          ∙ first_of-none (find d sorted)
          ∙ s.same_found d,
    )

-- The same for the line maps of the first build.
pub read_line_maps-write_line_maps_flat :
    (maps : List (ℕ × List ℕ)) (d : ℕ)
    → All IsLineMap maps
    → distinct (keys maps) ≡ true
    → length maps < 2 ^ 32
    → (read : List (ℕ × List ℕ)) × (read_line_maps (some (write_line_maps_flat maps)) ≡ some read)
      × (find d read ≡ find d maps)
unfolding read_line_maps write_line_maps_flat
read_line_maps-write_line_maps_flat maps d are h few =
    let count : u32 (length maps) ≡ length maps = omega arith in
    (
      put_all maps [],
      rw (count, read_le-to_le 4 (length maps) (write_each_map maps) (omega arith))
          (read_each_map-write_each_map maps [] are),
      find-put_all d maps [] h ∙ first_of-none (find d maps),
    )

-- A filter whose fields fit their widths.
abbrev pub IsStorableFilter : BloomFilter → Type 0
IsStorableFilter f =
    (f.num_hashes < 2 ^ 8) × (length f.bits < 2 ^ 32) × All (λ w. w < 2 ^ 64) f.bits

read_words-write_words :
    (ws : List ℕ) → All (λ w. w < 2 ^ 64) ws → read_words (length ws) (write_words ws) ≡ some ws
unfolding read_words write_words
read_words-write_words [] h = refl
read_words-write_words (w ∷ ws) (is, h) =
    rw (read_le-to_le 8 w (write_words ws) (omega arith), read_words-write_words ws h) refl

-- The filter that is read back is the filter of the words and the number of hashes that were written.
pub read_bloom_filter-write_bloom_file :
    (f : BloomFilter)
    → IsStorableFilter f
    → read_bloom_filter (some (write_bloom_file f)) ≡ some (from_raw f.bits f.num_hashes)
unfolding read_bloom_filter write_bloom_file
read_bloom_filter-write_bloom_file f (hashes, few, wide) =
    let count : u32 (length f.bits) ≡ length f.bits = omega arith in
    let bytes = λ (n v : ℕ) (r : List ℕ) (lt : v < 256 ^ n). read_le-to_le n v r lt in
    rw
      (
        count,
        bytes 1 f.num_hashes _ (omega arith),
        bytes 4 (length f.bits) _ (omega arith),
        read_words-write_words f.bits wide,
      )
      refl
