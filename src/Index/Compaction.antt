-- ===== src/Index/Compaction.antt =====
-- src/index/compact.rs: the new numbers of the documents that a merge of all segments keeps, and
-- the postings under these numbers.
pub mod Rounds
pub mod Remapping
pub mod Merged
mod Runs
use fxi.Base.{
  ℕ, ◌+◌, ◌%◌, ◌^◌, Bool, true, false, ◌&&◌, Option, none, some, List, [], ◌∷◌, ◌++◌, length,
  get_elem?, get_or, set, replicate, leb, ◌==◌, if◌then◌else◌,
}
use fxi.Base.Keys.{Eq, nat_eq, find, put}
use fxi.Base.Sorting.{sort, dedup}
use fxi.Index.Documents.{Document, is_valid}
use fxi.Index.Delta.{max_doc_id, u32, or_empty, none_in}
use fxi.Encoding.Delta.{delta_decode}
use fxi.Utils.Tokenizer.{slice_of}

-- The loop's state; what is returned is all of it but the next id.
pub record DocIdRemapping (P : Type 0) : Type 0 where
  pub old_to_new : List ℕ
  pub valid_docs : List Document
  pub valid_paths : List P
  pub path_id_remap : List (ℕ × ℕ)
  pub next_doc_id : ℕ

-- None if tombstoned or unknown.
unfoldable pub remap : {P : Type 0} → DocIdRemapping P → ℕ → Option ℕ
remap r old_id =
    let new_id = get_or r.old_to_new old_id 0 in if new_id == 0 then none else some new_id

abbrev pub keep_doc : {P : Type 0} → Document → ℕ → DocIdRemapping P → DocIdRemapping P
keep_doc doc new_path_id r = record r {
  old_to_new = set r.old_to_new doc.doc_id r.next_doc_id;
  valid_docs =
      r.valid_docs
      ++ (record doc { doc_id = r.next_doc_id; path_id = new_path_id; segment_id = 1 } ∷ []);
  next_doc_id = u32 (r.next_doc_id + 1);
}

-- A path that is new among the valid ones.
abbrev pub keep_path : {P : Type 0} → Document → Option P → DocIdRemapping P → DocIdRemapping P
keep_path doc none r = r
keep_path doc (some path) r =
    let new_id = u32 (length r.valid_paths) in
    keep_doc doc new_id (record r {
      valid_paths = r.valid_paths ++ (path ∷ []);
      path_id_remap = put doc.path_id new_id r.path_id_remap;
    })

abbrev pub keep : {P : Type 0} → List P → Document → Option ℕ → DocIdRemapping P → DocIdRemapping P
keep paths doc (some existing) r = keep_doc doc existing r
keep paths doc none r = keep_path doc (get_elem? paths doc.path_id) r

abbrev pub remap_doc : {P : Type 0} → List P → Document → DocIdRemapping P → DocIdRemapping P
remap_doc paths doc r =
    if is_valid doc then keep paths doc (find doc.path_id r.path_id_remap) r else r

abbrev pub remap_docs : {P : Type 0} → List P → List Document → DocIdRemapping P → DocIdRemapping P
remap_docs paths [] r = r
remap_docs paths (doc ∷ docs) r = remap_docs paths docs (remap_doc paths doc r)

unfoldable pub build_doc_id_remapping : {P : Type 0} → List Document → List P → DocIdRemapping P
unfolding max_doc_id
build_doc_id_remapping documents paths = remap_docs paths documents (record {
  old_to_new = replicate (max_doc_id documents + 1) 0;
  valid_docs = [];
  valid_paths = [];
  path_id_remap = [];
  next_doc_id = 1;
})

-- An entry of a dictionary, of trigrams or of tokens, and the files of a segment.
pub record DictEntry (K : Type 0) : Type 0 where
  pub key : K
  pub offset : ℕ
  pub entry_length : ℕ

pub record SegmentFiles (K : Type 0) : Type 0 where
  pub entries : List (DictEntry K)
  pub postings : List ℕ

-- The documents of an entry; none for bytes outside the file.
abbrev pub entry_docs : {K : Type 0} → List ℕ → DictEntry K → List ℕ
entry_docs postings e =
    let end = e.offset + e.entry_length in
    if leb end (length postings)
    then or_empty (delta_decode (slice_of postings e.offset end))
    else []

abbrev pub push_some : Option ℕ → List ℕ → List ℕ
push_some none rest = rest
push_some (some n) rest = n ∷ rest

-- filter_map with remap
unfoldable pub remap_all : {P : Type 0} → DocIdRemapping P → List ℕ → List ℕ
remap_all r [] = []
remap_all r (old_id ∷ old_ids) = push_some (remap r old_id) (remap_all r old_ids)

-- sort_unstable and dedup of each value
abbrev pub sort_values : {K : Type 0} → List (K × List ℕ) → List (K × List ℕ)
sort_values [] = []
sort_values ((k, ids) ∷ rest) = (k, dedup (sort ids)) ∷ sort_values rest

module _ {P K : Type 0} ⦃e : Eq K⦄ (r : DocIdRemapping P) where
  abbrev pub merge_ids : K → List ℕ → List (K × List ℕ) → List (K × List ℕ)
  merge_ids key remapped merged =
      if none_in remapped then merged else put key (or_empty (find key merged) ++ remapped) merged

  unfoldable pub merge_segment : List ℕ → List (DictEntry K) → List (K × List ℕ) → List (K × List ℕ)
  unfolding remap_all
  merge_segment postings [] merged = merged
  merge_segment postings (entry ∷ entries) merged =
      merge_segment postings entries
        (merge_ids entry.key (remap_all r (entry_docs postings entry)) merged)

  unfoldable pub merge_segments : List (SegmentFiles K) → List (K × List ℕ) → List (K × List ℕ)
  unfolding merge_segment
  merge_segments [] merged = merged
  merge_segments (s ∷ segments) merged =
      merge_segments segments (merge_segment s.postings s.entries merged)

  unfoldable pub merge_all_segments : List (SegmentFiles K) → List (K × List ℕ)
  unfolding merge_segments sort dedup
  merge_all_segments segments = sort_values (merge_segments segments [])
