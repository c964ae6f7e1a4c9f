-- ===== src/Index/Compaction/Runs.antt =====
-- Runs of the merge of src/index/compact.rs, and its theorems at concrete inputs.
use fxi.Base.{ℕ, ◌≡◌, refl, arith, some, List, [], ◌∷◌, All}
use fxi.Base.Keys.{nat_eq}
use fxi.Index.Documents.{Language, Document, is_valid, has_flag}
use fxi.Index.Delta.{max_doc_id}
use fxi.Index.Compaction.{
  DocIdRemapping, SegmentFiles, remap, build_doc_id_remapping, merge_all_segments,
}
use fxi.Index.Compaction.Rounds.{IsRemapped}
use fxi.Index.Compaction.Remapping.{build_doc_id_remapping-IsRemapped}
use fxi.Index.Compaction.Merged.{holds, in_segments, merge_all_segments-in_segments}

abbrev document : ℕ → ℕ → ℕ → Document
document doc_id path_id flags = record {
  doc_id = doc_id;
  path_id = path_id;
  size = 10;
  mtime = 20;
  language = Language.rust;
  flags = flags;
  segment_id = 2;
}

-- The second document is a tombstone; the third took its path over.
abbrev documents : List Document
documents = document 1 0 0 ∷ document 2 1 32 ∷ document 3 1 0 ∷ []

abbrev paths : List ℕ
paths = 70 ∷ 71 ∷ []

abbrev remapping : DocIdRemapping ℕ
remapping = build_doc_id_remapping documents paths

remap_run : remap remapping 3 ≡ some 2
unfolding remap build_doc_id_remapping max_doc_id is_valid has_flag
remap_run = refl

build_doc_id_remapping-IsRemapped_example : All (IsRemapped remapping paths) documents
build_doc_id_remapping-IsRemapped_example =
    build_doc_id_remapping-IsRemapped documents paths refl (omega arith)

-- The key 9 has postings in both segments.
abbrev segment : List ℕ → SegmentFiles ℕ
segment bytes = record {
  entries = record { key = 9; offset = 0; entry_length = 3 } ∷ [];
  postings = bytes;
}

abbrev segments : List (SegmentFiles ℕ)
segments = segment (2 ∷ 1 ∷ 1 ∷ []) ∷ segment (2 ∷ 3 ∷ 0 ∷ []) ∷ []

merge_all_segments-in_segments_example :
    holds (merge_all_segments remapping segments) 9 2 ≡ in_segments remapping 9 2 segments
merge_all_segments-in_segments_example = merge_all_segments-in_segments remapping segments 9 2
