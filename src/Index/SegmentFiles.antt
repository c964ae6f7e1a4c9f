-- ===== src/Index/SegmentFiles.antt =====
-- src/index/segment_io.rs, and the readers of src/index/reader.rs for what it writes: the
-- dictionaries and postings of trigrams and of tokens, the line maps and the filter of a segment.
-- A file is its bytes.
pub mod Dictionaries
pub mod LineMaps
pub mod SideFiles
pub mod Layout
pub mod PositionLayout
pub mod Grams
pub mod Tokens
pub mod Flat
pub mod Groups
pub mod FirstBuild
pub mod Chunks
mod Runs
use fxi.Base.{
  ℕ, ◌+◌, ◌%◌, ◌^◌, ◌≤◌, Bool, true, false, not, ◌&&◌, Option, none, some, List, [], ◌∷◌, length,
  leb, if◌then◌else◌,
}
use fxi.Base.Sorting.{sort, dedup}
use fxi.Encoding.Delta.{delta_encode}

-- doc_ids.is_sorted(): repetitions are allowed.
abbrev pub is_sorted : List ℕ → Bool
is_sorted [] = true
is_sorted (x ∷ []) = true
is_sorted (x ∷ y ∷ xs) = leb x y && is_sorted (y ∷ xs)

-- The bytes of the ids, and how many ids they are.
unfoldable pub encode_postings : List ℕ → List ℕ × ℕ
unfolding sort dedup
encode_postings doc_ids =
    let sorted = dedup (sort doc_ids) in
    if is_sorted doc_ids
    then (delta_encode doc_ids [], length doc_ids)
    else (delta_encode sorted [], length sorted)
