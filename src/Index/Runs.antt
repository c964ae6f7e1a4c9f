-- ===== src/Index/Runs.antt =====
-- Runs of docs.bin and of the delta segments of src/index, and their theorems at concrete inputs.
use fxi.Base.{ℕ, zero, suc, ◌≡◌, refl, arith, Option, some, List, [], ◌∷◌, inr}
use fxi.Base.Keys.{nat_eq}
use fxi.Index.Documents.{Language, Document, write_documents, read_documents}
use fxi.Index.Documents.Stored.{IsStorable, read_documents-write_documents}
use fxi.Index.Delta.{ProcessedFile, new, all_documents, all_paths, apply_incremental_update}
use fxi.Index.Delta.Updates.{IsIndexed, AreFresh, apply_incremental_update-IsIndexed}
use fxi.Server.Changes.{ChangeBatch}

abbrev one_document : Document
one_document = record {
  doc_id = 1;
  path_id = 0;
  size = 300;
  mtime = 1700000000;
  language = Language.rust;
  flags = 1;
  segment_id = 1;
}

one_document-IsStorable : IsStorable one_document
one_document-IsStorable = record {
  doc_id_fits = omega arith;
  path_id_fits = omega arith;
  size_fits = omega arith;
  mtime_fits = omega arith;
  flags_fits = omega arith;
  segment_id_fits = omega arith;
}

read_documents-write_documents_example :
    read_documents (write_documents (one_document ∷ [])) ≡ some (one_document ∷ [])
read_documents-write_documents_example =
    read_documents-write_documents (one_document ∷ []) (one_document-IsStorable, tt) (omega arith)

-- The paths 20 and 21, the first of them with a document.
abbrev some_paths : List ℕ
some_paths = 20 ∷ 21 ∷ []

abbrev file_at : ℕ → ProcessedFile ℕ ℕ
file_at p = record {
  rel_path = p;
  mtime = 1700000001;
  size = 10;
  language = Language.rust;
  flags = 0;
  trigrams = 5 ∷ [];
  tokens = 40 ∷ [];
  token_positions = (0, 0) ∷ [];
  line_offsets = 0 ∷ [];
}

abbrev process : ℕ → Option (ProcessedFile ℕ ℕ)
process p = some (file_at p)

-- 20 is modified, and 22 is new.
abbrev batch : ChangeBatch ℕ
batch = record {
  created = 22 ∷ [];
  modified = 20 ∷ [];
  deleted = [];
  created_set = 22 ∷ [];
  modified_set = 20 ∷ [];
  deleted_set = [];
}

one_document-IsIndexed : IsIndexed (one_document ∷ []) some_paths
one_document-IsIndexed = record {
  unique = refl;
  once = λ i. ground arith;
  within = λ i out. ground arith;
}

batch-AreFresh : AreFresh batch (one_document ∷ []) some_paths
batch-AreFresh p zero h at = absurd (ground arith)
batch-AreFresh p (suc i) h at = inr (ground arith)

path_of : {p : ℕ} {f : ProcessedFile ℕ ℕ} → process p ≡ some f → f.rel_path ≡ p
path_of {p} {f} h = ground arith

apply_incremental_update-IsIndexed_example :
    (let w = apply_incremental_update process batch (new 2 (one_document ∷ []) some_paths) in
      IsIndexed (all_documents w) (all_paths w))
apply_incremental_update-IsIndexed_example =
    apply_incremental_update-IsIndexed process (λ p f h. path_of h) batch 2 (one_document ∷ [])
      some_paths one_document-IsIndexed refl batch-AreFresh (omega arith)
