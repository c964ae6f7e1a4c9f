-- ===== src/Index/Compaction/Remapping.antt =====
-- What the documents become when all segments are merged.
use fxi.Base.{
  ℕ, zero, suc, ◌+◌, ◌^◌, ◌≡◌, ◌≤◌, ◌<◌, refl, arith, true, false, List, [], ◌∷◌, All, length,
  length-replicate, get_or, replicate, ==_iff,
}
use fxi.Base.Keys.{nat_eq, mem, distinct}
use fxi.Index.Documents.{Document}
use fxi.Index.Delta.{max_doc_id}
use fxi.Index.Compaction.{DocIdRemapping, remap_doc, remap_docs, build_doc_id_remapping}
use fxi.Index.Compaction.Rounds.{IsRemapped, IsBuilt, IsStep, IsUnused, remap_doc-IsStep}

abbrev pub ids : List Document → List ℕ
ids [] = []
ids (d ∷ ds) = d.doc_id ∷ ids ds

ids_within :
    (n : ℕ) (ds : List Document) → max_doc_id ds ≤ n → All (λ (d : Document). d.doc_id < n + 1) ds
unfolding max_doc_id
ids_within n [] h = tt
ids_within n (d ∷ ds) h = (omega arith, ids_within n ds (omega arith))

get_or-replicate : (n i : ℕ) → get_or (replicate {A = ℕ} n 0) i 0 ≡ 0
get_or-replicate zero i = refl
get_or-replicate (suc n) zero = refl
get_or-replicate (suc n) (suc i) = get_or-replicate n i

module _ {P : Type 0} where
  start-IsUnused :
      (n : ℕ) (r : DocIdRemapping P) (ds : List Document)
      → r.old_to_new ≡ replicate n 0
      → All (IsUnused r) ds
  unfolding IsUnused
  start-IsUnused n r [] h = tt
  start-IsUnused n r (d ∷ ds) h = (rw h (get_or-replicate n d.doc_id), start-IsUnused n r ds h)

  others-IsUnused :
      (paths : List P) (size count : ℕ) (doc : Document) (r r' : DocIdRemapping P)
      (ds : List Document)
      → IsStep paths size count doc r r'
      → mem doc.doc_id (ids ds) ≡ false
      → All (IsUnused r) ds
      → All (IsUnused r') ds
  others-IsUnused paths size count doc r r' [] step apart h = tt
  others-IsUnused paths size count doc r r' (d ∷ ds) step apart (h, hs) = (
    step.unused d (λ e. absurd (ground (arith, ==_iff doc.doc_id d.doc_id))) h,
    others-IsUnused paths size count doc r r' ds step (ground arith) hs,
  )

  remap_docs-IsRemapped :
      (paths : List P) (size count : ℕ) (docs : List Document) (r : DocIdRemapping P)
      → IsBuilt paths size count r
      → All (IsUnused r) docs
      → All (λ (d : Document). d.doc_id < size) docs
      → distinct (ids docs) ≡ true
      → count + length docs + 1 < 2 ^ 32
      → All (IsRemapped (remap_docs paths docs r) paths) docs
        × ((d : Document)
            → mem d.doc_id (ids docs) ≡ false
            → IsRemapped r paths d
            → IsRemapped (remap_docs paths docs r) paths d)
  remap_docs-IsRemapped paths size count [] r b free inside u small = (tt, λ d out h. h)
  remap_docs-IsRemapped paths size count (doc ∷ docs) r b (free, frees) (inside, insides) u small =
      let step = remap_doc-IsStep paths size count doc r b free inside (omega arith) in
      let next = remap_doc paths doc r in
      let apart : mem doc.doc_id (ids docs) ≡ false = ground arith in
      let (all, kept) =
        remap_docs-IsRemapped paths size (count + 1) docs next step.built
          (others-IsUnused paths size count doc r next docs step apart frees) insides (ground arith)
          (omega arith) in
      (
        (kept doc apart step.this, all),
        λ d out h.
            kept d (ground arith)
              (step.others d (λ e. absurd (ground (arith, ==_iff d.doc_id doc.doc_id))) h),
      )

-- If the ids of the documents differ and there are fewer than 2 ^ 32 - 1 of them, then after
-- build_doc_id_remapping every document that is valid and whose path is known has a new id, stands in
-- the place of that id as it was but for its numbers, and has its path; and every other document has
-- no new id.
pub build_doc_id_remapping-IsRemapped :
    {P : Type 0} (documents : List Document) (paths : List P)
    → distinct (ids documents) ≡ true
    → length documents + 1 < 2 ^ 32
    → All (IsRemapped (build_doc_id_remapping documents paths) paths) documents
unfolding build_doc_id_remapping
build_doc_id_remapping-IsRemapped {P} documents paths u small =
    let size = max_doc_id documents + 1 in
    let start : DocIdRemapping P = record {
      old_to_new = replicate size 0;
      valid_docs = [];
      valid_paths = [];
      path_id_remap = [];
      next_doc_id = 1;
    } in
    let built : IsBuilt paths size 0 start = record {
      sized = length-replicate size 0;
      next = refl;
      docs_few = omega arith;
      paths_few = omega arith;
      known = λ i n h. absurd (ground arith);
    } in
    (remap_docs-IsRemapped paths size 0 documents start built
      (start-IsUnused size start documents refl)
      (ids_within (max_doc_id documents) documents (omega arith)) u (omega arith)).0
