-- ===== src/Query/Executor/Index.antt =====
-- What query execution takes from the index, from the lookups, filters and matches of the other
-- parts: the Reader of src/query/executor.rs on the IndexReader of src/index/reader.rs.
use fxi.Base.{
  ℕ, ◌≡◌, refl, arith, Bool, true, false, Option, none, some, List, [], ◌∷◌, All, ◌==◌, ==_iff,
  if◌then◌else◌, Bool-cases, Option-cases, inl, inr,
}
use fxi.Base.Keys.{nat_eq, mem, distinct}
use fxi.Base.Sorting.{sort, dedup}
use fxi.Encoding.Bitmap.{Bitmap}
use fxi.Query.Text.{Str, Std}
use fxi.Query.Sets.{Sets}
use fxi.Query.Filter.{Globs, meets}
use fxi.Query.Plan.{FilterStep}
use fxi.Query.Content.{Memmem, Regexes}
use fxi.Query.Content.Verify.{has_match}
use fxi.Query.Executor.{Reader, is_some, among}
use fxi.Index.Documents.{Document, is_valid}
use fxi.Index.Segments.{Segment, get_trigram_docs_with_bloom}
use fxi.Index.Postings.{Dictionary, get_token_docs, get_token_docs_containing}
use fxi.Index.Phrases.{SegmentReader, resolve_phrase_positional}
use fxi.Index.Phrases.Narrowed.{IsWellFormed, resolve_phrase_positional-narrowed}

-- get_document: the map from ids to places keeps the last place of an id.
unfoldable pub get_document : List Document → ℕ → Option Document
get_document [] id = none
get_document (doc ∷ docs) id =
    let later = get_document docs id in
    elim later [ some found ↦ some found | none ↦ if id == doc.doc_id then some doc else none ]

abbrev pub doc_ids : List Document → List ℕ
doc_ids [] = []
doc_ids (doc ∷ docs) = doc.doc_id ∷ doc_ids docs

abbrev pub valid_one : Option Document → Bool
valid_one none = false
valid_one (some doc) = is_valid doc

get_document-absent :
    (docs : List Document) (id : ℕ) → mem id (doc_ids docs) ≡ false → get_document docs id ≡ none
unfolding get_document
get_document-absent [] id h = refl
get_document-absent (doc ∷ docs) id h =
    let later = get_document-absent docs id (ground arith) in
    let other : (id == doc.doc_id) ≡ false = ground arith in rw (later, other) refl

module _ (sets : Sets) where
  open sets use {B, new, contains, insert, contains-new, contains-insert}

  -- The ids of the documents that are neither stale nor tombstones.
  unfoldable pub valid_doc_ids : List Document → B
  valid_doc_ids [] = new
  valid_doc_ids (doc ∷ docs) =
      let rest = valid_doc_ids docs in if is_valid doc then insert rest doc.doc_id else rest

  pub contains-valid_doc_ids :
      (docs : List Document) (id : ℕ)
      → distinct (doc_ids docs) ≡ true
      → contains (valid_doc_ids docs) id ≡ valid_one (get_document docs id)
  unfolding valid_doc_ids get_document
  contains-valid_doc_ids [] id h = contains-new id
  contains-valid_doc_ids (doc ∷ docs) id h =
      let rest = contains-valid_doc_ids docs id (ground arith) in
      let put = contains-insert (valid_doc_ids docs) doc.doc_id id in
      let same = ==_iff id doc.doc_id in
      elim (Bool-cases (id == doc.doc_id)) [
        | inl here ↦
            let is : doc.doc_id ≡ id = ground arith in
            let unique : mem id (doc_ids docs) ≡ false = rw (← is) (ground arith) in
            let later = get_document-absent docs id unique in rw (later, here) (ground arith)
        | inr other ↦ elim (Option-cases (get_document docs id)) [
          | inl missing ↦ rw (missing, other) (ground arith)
          | inr (found, there) ↦ rw there (ground arith)
        ]
      ]

module _ (F : Type 0) (roaring : Bitmap) (sets : Sets) (of_bitmap : Bitmap.B roaring → Sets.B sets)
    (as_bitmap : Sets.B sets → Bitmap.B roaring)
    (as_agrees : (b : Sets.B sets) (d : ℕ)
      → Bitmap.contains roaring (as_bitmap b) d ≡ Sets.contains sets b d)
    (std : Std) (globs : Globs) (mm : Memmem) (res : Regexes) (hash_pair : ℕ → ℕ × ℕ)
    (finds : (needle token : Str) → Bool) where
  -- The index as it is open, with its file cache and the disk behind it. No id is given twice, the
  -- positions are those that were written, and no file has changed since it was cached.
  pub record IndexReader : Type 0 where
    pub documents : List Document
    pub segments : List (Segment sets)
    pub token_segments : List (Dictionary Str)
    pub phrase_segments : List SegmentReader
    pub stop_grams : List ℕ
    pub get_path : Document → Option (Globs.FilePath globs)
    pub file_cache : ℕ → Option Str
    pub read_to_string : ℕ → Option Str
    pub num_threads : ℕ
    pub ids_once : distinct (doc_ids documents) ≡ true
    pub positions_written : All IsWellFormed phrase_segments
    pub cache_fresh :
        (d : ℕ) (content : Str) → file_cache d ≡ some content → read_to_string d ≡ some content

  module _ (segments : List SegmentReader) (written : All IsWellFormed segments) where
    -- The answer of a phrase, with candidates or without.
    abbrev pub resolve : List (Str × ℕ) → Option (Sets.B sets) → Option (Sets.B sets)
    resolve = resolve_phrase_positional roaring std sets as_bitmap segments

    pub is_some-resolve :
        (ts : List (Str × ℕ)) (b : Sets.B sets)
        → is_some (resolve ts (some b)) ≡ is_some (resolve ts none)
    is_some-resolve ts b =
        let both =
          resolve_phrase_positional-narrowed roaring std sets as_bitmap as_agrees segments ts b 0
            written in
        both.0

    pub among-resolve :
        (ts : List (Str × ℕ)) (b : Sets.B sets) (d : ℕ)
        → Sets.contains sets b d ≡ true
        → among sets (resolve ts (some b)) d ≡ among sets (resolve ts none) d
    among-resolve ts b d h =
        let both =
          resolve_phrase_positional-narrowed roaring std sets as_bitmap as_agrees segments ts b d
            written in
        elim (Option-cases (resolve ts none)) [
          | inl missing ↦ let told = rw missing at (both.1) in rw missing told
          | inr (docs, there) ↦ let told = rw there at (both.1) in rw there (ground arith)
        ]

  abbrev pub meets_one :
      (Document → Option (Globs.FilePath globs)) → FilterStep → Option Document → Bool
  meets_one get_path f none = false
  meets_one get_path f (some doc) = meets std globs f (get_path doc) doc

  abbrev pub reader_of : IndexReader → Reader F sets
  reader_of i = record {
    Content = Str;
    is_stop_gram = λ t. mem t i.stop_grams;
    get_trigram_docs_with_bloom =
        get_trigram_docs_with_bloom hash_pair sets (valid_doc_ids sets i.documents) i.segments;
    get_token_docs = get_token_docs roaring sets of_bitmap as_bitmap std finds i.token_segments;
    get_token_docs_containing =
        get_token_docs_containing roaring sets of_bitmap as_bitmap std finds i.token_segments;
    resolve_phrase_positional =
        resolve_phrase_positional roaring std sets as_bitmap i.phrase_segments;
    valid_doc_ids = valid_doc_ids sets i.documents;
    is_valid = λ d. valid_one (get_document i.documents d);
    meets = λ f d. meets_one i.get_path f (get_document i.documents d);
    file_cache = i.file_cache;
    read_to_string = i.read_to_string;
    has_match = λ content v. has_match std mm res content v;
    sort_dedup = λ ts. dedup (sort ts);
    num_threads = i.num_threads;
    contains-valid_doc_ids = λ d. contains-valid_doc_ids sets i.documents d i.ids_once;
    file_cache-fresh = i.cache_fresh;
    resolve_phrase_positional-is_some = is_some-resolve i.phrase_segments i.positions_written;
    resolve_phrase_positional-among = among-resolve i.phrase_segments i.positions_written;
  }
