-- ===== src/Index/Delta.antt =====
-- DeltaSegmentWriter of src/index/writer.rs, and apply_incremental_update of
-- src/server/daemon_core.rs, which drives it with a batch of changes.
pub mod Marks
pub mod PathIds
pub mod Unique
pub mod Updates
use fxi.Base.{
  ℕ, zero, suc, ◌+◌, ◌%◌, ◌^◌, max, Bool, true, false, not, ◌&&◌, ◌||◌, Option, none, some, List,
  [], ◌∷◌, ◌++◌, length, get_elem?, ◌==◌, if◌then◌else◌,
}
use fxi.Base.Keys.{Eq, nat_eq, mem, find, put}
use fxi.Index.Documents.{Language, Document, is_valid, has_flag, tombstone, set_tombstone}
use fxi.Server.Changes.{ChangeBatch}

pub record ProcessedFile (K T : Type 0) : Type 0 where
  pub rel_path : K
  pub mtime : ℕ
  pub size : ℕ
  pub language : Language
  pub flags : ℕ
  pub trigrams : List ℕ
  pub tokens : List T
  pub token_positions : List (ℕ × ℕ)
  pub line_offsets : List ℕ

pub record DeltaSegmentWriter (K T : Type 0) : Type 0 where
  pub segment_id : ℕ
  pub existing_documents : List Document
  pub existing_paths : List K
  pub path_to_id : List (K × ℕ)
  pub new_documents : List Document
  pub new_paths : List K
  pub next_doc_id : ℕ
  pub next_path_id : ℕ
  pub trigram_postings : List (ℕ × List ℕ)
  pub token_postings : List (T × List ℕ)
  pub token_position_postings : List (T × List (ℕ × List ℕ))
  pub line_maps : List (ℕ × List ℕ)
  pub tombstone_doc_ids : List ℕ

pub record IndexMeta : Type 0 where
  pub doc_count : ℕ
  pub segment_count : ℕ
  pub delta_segments : List ℕ
  pub tombstone_count : ℕ
  pub valid_doc_count : ℕ

abbrev pub u32 : ℕ → ℕ
u32 n = n % 2 ^ 32

abbrev pub or_empty : {A : Type 0} → Option (List A) → List A
or_empty none = []
or_empty (some xs) = xs

-- entry(k).or_default().push(v)
abbrev pub push_at : {A B : Type 0} ⦃e : Eq A⦄ → A → B → List (A × List B) → List (A × List B)
push_at k v m = put k (or_empty (find k m) ++ (v ∷ [])) m

-- The largest id, 0 if there is none.
unfoldable pub max_doc_id : List Document → ℕ
max_doc_id [] = 0
max_doc_id (d ∷ ds) = max d.doc_id (max_doc_id ds)

-- The last document of a path that is valid.
unfoldable pub last_valid : ℕ → List Document → Option ℕ
last_valid path_id [] = none
last_valid path_id (d ∷ ds) = elim (last_valid path_id ds) [
  | some doc_id ↦ some doc_id
  | none ↦ if d.path_id == path_id && is_valid d then some d.doc_id else none
]

unfoldable pub mark : List ℕ → List Document → List Document
mark doc_ids [] = []
mark doc_ids (d ∷ ds) =
    (if mem d.doc_id doc_ids then record d { flags = set_tombstone d.flags } else d)
    ∷ mark doc_ids ds

abbrev pub count : (Document → Bool) → List Document → ℕ
count test [] = 0
count test (d ∷ ds) = (if test d then 1 else 0) + count test ds

abbrev pub last_valid_at : Option ℕ → List Document → Option ℕ
last_valid_at none documents = none
last_valid_at (some path_id) documents = last_valid path_id documents

abbrev pub none_in : {A : Type 0} → List A → Bool
none_in [] = true
none_in (x ∷ xs) = false

abbrev pub push_trigrams : ℕ → List ℕ → List (ℕ × List ℕ) → List (ℕ × List ℕ)
push_trigrams doc_id [] m = m
push_trigrams doc_id (t ∷ ts) m = push_trigrams doc_id ts (push_at t doc_id m)

module _ {K : Type 0} ⦃e : Eq K⦄ where
  unfoldable pub number_paths : ℕ → List K → List (K × ℕ) → List (K × ℕ)
  number_paths idx [] m = m
  number_paths idx (p ∷ ps) m = number_paths (idx + 1) ps (put p (u32 idx) m)

module _ {T : Type 0} ⦃e : Eq T⦄ where
  abbrev pub push_tokens : ℕ → List T → List (T × List ℕ) → List (T × List ℕ)
  push_tokens doc_id [] m = m
  push_tokens doc_id (t ∷ ts) m = push_tokens doc_id ts (push_at t doc_id m)

  -- A position whose token is not there stands for the panic of the index, and is left out.
  abbrev pub push_position :
      ℕ → Option T → ℕ → List (T × List (ℕ × List ℕ)) → List (T × List (ℕ × List ℕ))
  push_position doc_id none pos m = m
  push_position doc_id (some token) pos m =
      put token (push_at doc_id pos (or_empty (find token m))) m

  abbrev pub push_positions :
      ℕ → List T → List (ℕ × ℕ) → List (T × List (ℕ × List ℕ)) → List (T × List (ℕ × List ℕ))
  push_positions doc_id tokens [] m = m
  push_positions doc_id tokens ((idx, pos) ∷ rest) m =
      push_positions doc_id tokens rest (push_position doc_id (get_elem? tokens idx) pos m)

module _ {K T : Type 0} ⦃e : Eq K⦄ ⦃e' : Eq T⦄ where
  unfoldable pub new : ℕ → List Document → List K → DeltaSegmentWriter K T
  unfolding number_paths max_doc_id
  new segment_id documents paths = record {
    segment_id = segment_id;
    existing_documents = documents;
    existing_paths = paths;
    path_to_id = number_paths 0 paths [];
    new_documents = [];
    new_paths = [];
    next_doc_id = u32 (max_doc_id documents + 1);
    next_path_id = u32 (length paths);
    trigram_postings = [];
    token_postings = [];
    token_position_postings = [];
    line_maps = [];
    tombstone_doc_ids = [];
  }

  abbrev pub push_tombstone : Option ℕ → DeltaSegmentWriter K T → DeltaSegmentWriter K T
  push_tombstone none w = w
  push_tombstone (some doc_id) w = record w {
    tombstone_doc_ids = w.tombstone_doc_ids ++ (doc_id ∷ []);
  }

  unfoldable pub mark_tombstone : K → DeltaSegmentWriter K T → DeltaSegmentWriter K T
  mark_tombstone p w = push_tombstone (last_valid_at (find p w.path_to_id) w.existing_documents) w

  abbrev pub get_or_create : Option ℕ → K → DeltaSegmentWriter K T → ℕ × DeltaSegmentWriter K T
  get_or_create (some path_id) p w = (path_id, w)
  get_or_create none p w = (
    w.next_path_id,
    record w {
      next_path_id = u32 (w.next_path_id + 1);
      new_paths = w.new_paths ++ (p ∷ []);
      path_to_id = put p w.next_path_id w.path_to_id;
    },
  )

  unfoldable pub get_or_create_path_id : K → DeltaSegmentWriter K T → ℕ × DeltaSegmentWriter K T
  get_or_create_path_id p w = get_or_create (find p w.path_to_id) p w

  -- The document of a file, and its postings.
  unfoldable pub push_file :
      ℕ → ProcessedFile K T → ℕ → DeltaSegmentWriter K T → DeltaSegmentWriter K T
  push_file doc_id f path_id w = record w {
    new_documents =
        w.new_documents
        ++ (record {
          doc_id = doc_id;
          path_id = path_id;
          size = f.size;
          mtime = f.mtime;
          language = f.language;
          flags = f.flags;
          segment_id = w.segment_id;
        }
            ∷ []);
    trigram_postings = push_trigrams doc_id f.trigrams w.trigram_postings;
    token_position_postings =
        push_positions doc_id f.tokens f.token_positions w.token_position_postings;
    token_postings = push_tokens doc_id f.tokens w.token_postings;
    line_maps = put doc_id f.line_offsets w.line_maps;
  }

  unfoldable pub add_file : ProcessedFile K T → DeltaSegmentWriter K T → DeltaSegmentWriter K T
  unfolding push_file get_or_create_path_id
  add_file f w =
      let w₁ = record w { next_doc_id = u32 (w.next_doc_id + 1) } in
      let (path_id, w₂) = get_or_create_path_id f.rel_path w₁ in
      push_file w.next_doc_id f path_id w₂

  unfoldable pub has_changes : DeltaSegmentWriter K T → Bool
  has_changes w = not (none_in w.new_documents && none_in w.tombstone_doc_ids)

  unfoldable pub all_documents : DeltaSegmentWriter K T → List Document
  unfolding mark
  all_documents w = mark w.tombstone_doc_ids w.existing_documents ++ w.new_documents

  unfoldable pub all_paths : DeltaSegmentWriter K T → List K
  all_paths w = w.existing_paths ++ w.new_paths

  -- The metadata that finalize leaves; the segment's files are written beside it.
  unfoldable pub finalize : DeltaSegmentWriter K T → IndexMeta → IndexMeta
  unfolding has_changes all_documents has_flag
  finalize w meta =
      let documents = all_documents w in
      let segments = meta.delta_segments ++ (w.segment_id ∷ []) in
      if has_changes w
      then record {
        doc_count = u32 (length documents);
        segment_count = (1 + length segments) % 2 ^ 16;
        delta_segments = segments;
        tombstone_count = u32 (count (λ (d : Document). has_flag d.flags tombstone) documents);
        valid_doc_count = u32 (count is_valid documents);
      }
      else meta

  -- The loops of apply_incremental_update.
  abbrev pub mark_all : List K → DeltaSegmentWriter K T → DeltaSegmentWriter K T
  mark_all [] w = w
  mark_all (p ∷ ps) w = mark_all ps (mark_tombstone p w)

  -- `process` stands for process_file_for_delta, which reads
  -- a file and leaves out what is not to be indexed.
  module _ (process : K → Option (ProcessedFile K T)) where
    abbrev pub add_processed :
        Option (ProcessedFile K T) → DeltaSegmentWriter K T → DeltaSegmentWriter K T
    add_processed none w = w
    add_processed (some f) w = add_file f w

    abbrev pub add_files : List K → DeltaSegmentWriter K T → DeltaSegmentWriter K T
    add_files [] w = w
    add_files (p ∷ ps) w = add_files ps (add_processed (process p) w)

    unfoldable pub apply_incremental_update :
        ChangeBatch K → DeltaSegmentWriter K T → DeltaSegmentWriter K T
    unfolding mark_tombstone add_file
    apply_incremental_update batch w =
        add_files (batch.created ++ batch.modified) (mark_all (batch.deleted ++ batch.modified) w)
