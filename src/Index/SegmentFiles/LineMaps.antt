-- ===== src/Index/SegmentFiles/LineMaps.antt =====
-- linemap.bin and bloom.bin: write_line_maps and write_bloom_file of src/index/segment_io.rs, and
-- read_line_maps and read_bloom_filter of src/index/reader.rs.
use fxi.Base.{
  ℕ, zero, suc, Option, none, some, List, [], ◌∷◌, ◌++◌, length, leb, if◌then◌else◌, ◌>>=◌,
}
use fxi.Base.Keys.{nat_eq, put}
use fxi.Bloom.{BloomFilter, from_raw}
use fxi.Encoding.Delta.{delta_encode, delta_decode}
use fxi.Utils.Tokenizer.{u32}
use fxi.Index.Documents.{to_le, read_le}
use fxi.Index.SegmentFiles.Dictionaries.{read_bytes}

-- sort_by_key, which is stable
abbrev pub insert_by_id : ℕ × List ℕ → List (ℕ × List ℕ) → List (ℕ × List ℕ)
insert_by_id x [] = x ∷ []
insert_by_id x (y ∷ ys) = if leb x.0 y.0 then x ∷ y ∷ ys else y ∷ insert_by_id x ys

unfoldable pub sort_by_id : List (ℕ × List ℕ) → List (ℕ × List ℕ)
sort_by_id [] = []
sort_by_id (x ∷ xs) = insert_by_id x (sort_by_id xs)

unfoldable pub write_line_map : ℕ → List ℕ → List ℕ
write_line_map doc_id offsets =
    let encoded = delta_encode offsets [] in
    to_le 4 doc_id
    ++ (to_le 4 (u32 (length offsets)) ++ (to_le 4 (u32 (length encoded)) ++ encoded))

unfoldable pub write_each_map : List (ℕ × List ℕ) → List ℕ
unfolding write_line_map
write_each_map [] = []
write_each_map ((doc_id, offsets) ∷ maps) = write_line_map doc_id offsets ++ write_each_map maps

-- The hash map is given as its entries, in any order.
unfoldable pub write_line_maps : List (ℕ × List ℕ) → List ℕ
unfolding sort_by_id write_each_map
write_line_maps line_maps =
    to_le 4 (u32 (length line_maps)) ++ write_each_map (sort_by_id line_maps)

-- src/index/writer.rs, write_line_maps_flat: the maps of the first build, in the order of the files.
unfoldable pub write_line_maps_flat : List (ℕ × List ℕ) → List ℕ
unfolding write_each_map
write_line_maps_flat line_maps = to_le 4 (u32 (length line_maps)) ++ write_each_map line_maps

unfoldable pub read_line_map : List ℕ → Option (ℕ × List ℕ × List ℕ)
unfolding read_bytes
read_line_map bytes = do
  (doc_id, b₁) ← read_le 4 bytes
  (line_count, b₂) ← read_le 4 b₁
  (encoded_len, b₃) ← read_le 4 b₂
  (encoded, b₄) ← read_bytes encoded_len b₃
  offsets ← delta_decode encoded
  some (doc_id, offsets, b₄)

unfoldable pub read_each_map : (count : ℕ) → List ℕ → List (ℕ × List ℕ) → Option (List (ℕ × List ℕ))
unfolding read_line_map
read_each_map zero bytes line_maps = some line_maps
read_each_map (suc n) bytes line_maps = do
  (doc_id, offsets, rest) ← read_line_map bytes
  read_each_map n rest (put doc_id offsets line_maps)

-- No file is no line map.
unfoldable pub read_line_maps : Option (List ℕ) → Option (List (ℕ × List ℕ))
unfolding read_each_map
read_line_maps none = some []
read_line_maps (some bytes) = do (count, rest) ← read_le 4 bytes; read_each_map count rest []

unfoldable pub write_words : List ℕ → List ℕ
write_words [] = []
write_words (w ∷ ws) = to_le 8 w ++ write_words ws

unfoldable pub write_bloom_file : BloomFilter → List ℕ
unfolding write_words
write_bloom_file f = to_le 1 f.num_hashes ++ (to_le 4 (u32 (length f.bits)) ++ write_words f.bits)

unfoldable pub read_words : (num_words : ℕ) → List ℕ → Option (List ℕ)
read_words zero bytes = some []
read_words (suc n) bytes = do (w, rest) ← read_le 8 bytes; ws ← read_words n rest; some (w ∷ ws)

-- Without the file there is no filter.
unfoldable pub read_bloom_filter : Option (List ℕ) → Option BloomFilter
unfolding read_words
read_bloom_filter none = none
read_bloom_filter (some bytes) = do
  (num_hashes, b₁) ← read_le 1 bytes
  (num_words, b₂) ← read_le 4 b₁
  bits ← read_words num_words b₂
  some (from_raw bits num_hashes)
