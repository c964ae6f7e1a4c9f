-- ===== src/Query/Executor/Runs.antt =====
-- An index, a plan of src/query/executor.rs that is executed on it, and the theorem of the executor
-- at that input.
use fxi.Base.{
  ℕ, ◌≡◌, refl, arith, Option, none, some, [], ◌∷◌, ◌==◌, if◌then◌else◌, Bool-cases, inl, inr,
}
use fxi.Base.Keys.{nat_eq}
use fxi.Encoding.Bitmap.Lists.{listed}
use fxi.Query.Ascii.{ascii}
use fxi.Encoding.Delta.{delta_decode_bitmap}
use fxi.Encoding.Varint.{decode_varint}
use fxi.Utils.Tokenizer.{encode}
use fxi.Query.Content.Verify.{has_match}
use fxi.Query.Content.Matches.{has_literal_match}
use fxi.Query.Content.Runs.{searches, texts}
use fxi.Query.Executor.{
  Reader, execute_plan, exclude_all, verify_excluded_docs, collect, should_use_parallel,
  read_file_cached, read_file_mmap,
}
use fxi.Query.Executor.Index.{IndexReader, reader_of}
use fxi.Query.Executor.Meaning.{in_plan}
use fxi.Query.Executor.Narrowing.{execute_plan-in_plan}
use fxi.Query.Filter.{Globs}
use fxi.Query.Plan.{VerificationStep, QueryPlan, plan, token_lookup, exclude, scons, snil, single}
use fxi.Query.Sets.{elem}
use fxi.Query.Sets.Lists.{lists, held-elem, retain}
use fxi.Query.Text.{Str, codes, eq_str, str_eq}
use fxi.Index.Documents.{Language, Document}
use fxi.Index.Postings.{Dictionary, get_token_docs, get_docs}

-- Globs that stand for themselves.
abbrev names : Globs
names = record {
  FilePath = Str;
  file_name = λ p. some p;
  extension = λ p. none;
  Glob = Str;
  star = [];
  with_separator = λ p. some p;
  new_glob = λ p. some p;
  is_match_path = λ m p. eq_str m p;
  is_match_text = λ m p. eq_str m p;
}

abbrev a_document : ℕ → Document
a_document id = record {
  doc_id = id;
  path_id = id;
  size = 10;
  mtime = 0;
  language = Language.rust;
  flags = 0;
  segment_id = 1;
}

-- The token foo is in the documents 2, 3 and 4, and bar in 3.
abbrev tokens : Dictionary Str
tokens = record {
  entries =
      (codes "foo", record { offset = 0; entry_length = 3 })
      ∷ (codes "bar", record { offset = 3; entry_length = 1 })
      ∷ [];
  postings = 2 ∷ 1 ∷ 1 ∷ 3 ∷ [];
}

abbrev on_disk : ℕ → Option Str
on_disk d = if d == 3 then some (codes "foo bar") else some (codes "foo")

abbrev cached : ℕ → Option Str
cached d = if d == 3 then some (codes "foo bar") else none

cached_fresh : (d : ℕ) (content : Str) → cached d ≡ some content → on_disk d ≡ some content
cached_fresh d content h = elim (Bool-cases (d == 3)) [
  | inl e ↦ ground arith
  | inr e ↦ ground arith
]

abbrev an_index :
    IndexReader ℕ listed lists
      (λ b. b)
      (λ b. b)
      held-elem
      ascii
      names
      searches
      texts
      (λ t. (t, t))
      eq_str
an_index = record {
  documents = a_document 2 ∷ a_document 3 ∷ a_document 4 ∷ [];
  segments = [];
  token_segments = tokens ∷ [];
  phrase_segments = [];
  stop_grams = [];
  get_path = λ doc. some (codes "a.rs");
  file_cache = cached;
  read_to_string = on_disk;
  num_threads = 4;
  ids_once = refl;
  positions_written = tt;
  cache_fresh = cached_fresh;
}

abbrev its_reader : Reader ℕ lists
its_reader =
    reader_of ℕ listed lists (λ b. b) (λ b. b) held-elem ascii names searches texts (λ t. (t, t))
      eq_str an_index

-- foo and not bar
abbrev foo_not_bar : QueryPlan ℕ
foo_not_bar =
    plan
      (scons (token_lookup (codes "foo")) (
        scons
          (exclude (
            plan (single (token_lookup (codes "bar")))
              (some (VerificationStep.literal (codes "bar")))))
          snil))
      none

-- Document 3 has the token bar too.
foo_not_bar_run : execute_plan ℕ lists its_reader foo_not_bar ≡ 4 ∷ 2 ∷ []
unfolding execute_plan exclude_all verify_excluded_docs collect should_use_parallel retain
    read_file_cached read_file_mmap get_token_docs get_docs delta_decode_bitmap decode_varint
    has_match has_literal_match encode
foo_not_bar_run = refl

execute_plan-in_plan_example :
    elem 3 (execute_plan ℕ lists its_reader foo_not_bar) ≡ in_plan ℕ lists its_reader foo_not_bar 3
execute_plan-in_plan_example = execute_plan-in_plan ℕ lists its_reader foo_not_bar 3
