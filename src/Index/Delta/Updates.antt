-- ===== src/Index/Delta/Updates.antt =====
-- What a batch of changes makes of the index.
use fxi.Base.{
  ℕ, ◌+◌, ◌^◌, ◌<◌, ◌≤◌, ◌≡◌, refl, sym, ◌∙◌, arith, true, Option, none, some, List, [], ◌∷◌, ◌++◌,
  append-nil, length, get_elem?, Bool-cases, Option-cases, ◌⊎◌, inl, inr,
}
use fxi.Base.Keys.{Eq, nat_eq, mem, distinct, find, mem-append, beq_refl}
use fxi.Index.Documents.{Document}
use fxi.Index.Delta.{
  ProcessedFile, DeltaSegmentWriter, count, mark, new, all_documents, all_paths, last_valid,
  last_valid_at, push_tombstone, mark_tombstone, mark_all, apply_incremental_update,
}
use fxi.Index.Delta.Marks.{is_of, count-mark-le, count-mark_last, count-last_valid}
use fxi.Index.Delta.PathIds.{IsNumbered, new-IsNumbered}
use fxi.Index.Delta.Unique.{IsReady, add_files-IsReady}
use fxi.Server.Changes.{ChangeBatch}

last_valid_at-some :
    (i id : ℕ) (found : Option ℕ) (documents : List Document)
    → found ≡ some i
    → last_valid i documents ≡ some id
    → last_valid_at found documents ≡ some id
last_valid_at-some i id none documents h last = absurd (ground arith)
last_valid_at-some i id (some j) documents h last =
    (let same : j ≡ i = ground arith in rw same last)

module _ {K T : Type 0} ⦃e : Eq K⦄ ⦃e' : Eq T⦄ where
  -- A change of the tombstones keeps all else.
  push_tombstone-keeps :
      {A : Type 0} (read : DeltaSegmentWriter K T → A)
      → ((w : DeltaSegmentWriter K T) (ids : List ℕ)
          → read (record w { tombstone_doc_ids = ids }) ≡ read w)
      → (found : Option ℕ) (w : DeltaSegmentWriter K T) → read (push_tombstone found w) ≡ read w
  push_tombstone-keeps read same none w = refl
  push_tombstone-keeps read same (some id) w = same w (w.tombstone_doc_ids ++ (id ∷ []))

  mark_all-keeps :
      {A : Type 0} (read : DeltaSegmentWriter K T → A)
      → ((w : DeltaSegmentWriter K T) (ids : List ℕ)
          → read (record w { tombstone_doc_ids = ids }) ≡ read w)
      → (ps : List K) (w : DeltaSegmentWriter K T) → read (mark_all ps w) ≡ read w
  unfolding mark_tombstone
  mark_all-keeps read same [] w = refl
  mark_all-keeps read same (p ∷ ps) w =
      mark_all-keeps read same ps (mark_tombstone p w)
      ∙ push_tombstone-keeps read same (last_valid_at (find p w.path_to_id) w.existing_documents) w

  push_tombstone-grows :
      (id : ℕ) (found : Option ℕ) (w : DeltaSegmentWriter K T)
      → (mem id w.tombstone_doc_ids ≡ true) ⊎ (found ≡ some id)
      → mem id (push_tombstone found w).tombstone_doc_ids ≡ true
  push_tombstone-grows id none w (inl h) = h
  push_tombstone-grows id none w (inr h) = absurd (ground arith)
  push_tombstone-grows id (some i) w h =
      let here = beq_refl id in rw (mem-append id w.tombstone_doc_ids (i ∷ [])) (ground arith)

  mark_all-grows :
      (id : ℕ) (ps : List K) (w : DeltaSegmentWriter K T)
      → mem id w.tombstone_doc_ids ≡ true
      → mem id (mark_all ps w).tombstone_doc_ids ≡ true
  unfolding mark_tombstone
  mark_all-grows id [] w h = h
  mark_all-grows id (p ∷ ps) w h =
      let found = last_valid_at (find p w.path_to_id) w.existing_documents in
      mark_all-grows id ps (mark_tombstone p w) (push_tombstone-grows id found w (inl h))

  -- The valid document of a marked path is among the tombstones.
  mark_all-marks :
      (p : K) (ps : List K) (w : DeltaSegmentWriter K T) (i id : ℕ)
      → mem p ps ≡ true
      → find p w.path_to_id ≡ some i
      → last_valid i w.existing_documents ≡ some id
      → mem id (mark_all ps w).tombstone_doc_ids ≡ true
  unfolding mark_tombstone
  mark_all-marks p [] w i id h at last = absurd (ground arith)
  mark_all-marks p (q ∷ ps) w i id h at last =
      let found = last_valid_at (find q w.path_to_id) w.existing_documents in
      elim (Bool-cases (e.beq p q)) [
        | inl same ↦
            let there : find q w.path_to_id ≡ some i = rw (sym ((e.beq_iff p q).0 same)) at in
            mark_all-grows id ps (mark_tombstone q w) (
              push_tombstone-grows id found w (
                inr
                  (last_valid_at-some i id (find q w.path_to_id) w.existing_documents there last)))
        | inr other ↦
            let later : mem p ps ≡ true = ground arith in
            mark_all-marks p ps (mark_tombstone q w) i id later
              (push_tombstone-keeps (λ v. find p v.path_to_id) (λ v ids. refl) found w ∙ at)
              (push_tombstone-keeps (λ v. last_valid i v.existing_documents) (λ v ids. refl) found w
                ∙ last)
      ]

module _ {K : Type 0} ⦃e : Eq K⦄ where
  -- An index: no path stands twice or has two valid documents, and only its paths have any.
  pub record IsIndexed (documents : List Document) (paths : List K) : Type 0 where
    pub unique : distinct paths ≡ true
    pub once : (i : ℕ) → count (is_of i) documents ≤ 1
    pub within : (i : ℕ) → length paths ≤ i → count (is_of i) documents ≡ 0

  -- A path that is in the batch as created is not in the index, or is in the batch as deleted too.
  abbrev pub AreFresh : ChangeBatch K → List Document → List K → Type 0
  AreFresh batch documents paths =
      (p : K) (i : ℕ)
      → mem p batch.created ≡ true
      → get_elem? paths i ≡ some p
      → (mem p batch.deleted ≡ true) ⊎ (count (is_of i) documents ≡ 0)

module _ {K T : Type 0} ⦃e : Eq K⦄ ⦃e' : Eq T⦄ where
  push_tombstone-IsNumbered :
      (found : Option ℕ) (w : DeltaSegmentWriter K T)
      → IsNumbered w
      → IsNumbered (push_tombstone found w)
  unfolding all_paths
  push_tombstone-IsNumbered none w n = n
  push_tombstone-IsNumbered (some id) w n = record { numbers = n.numbers; next = n.next }

  mark_all-IsNumbered :
      (ps : List K) (w : DeltaSegmentWriter K T) → IsNumbered w → IsNumbered (mark_all ps w)
  unfolding mark_tombstone
  mark_all-IsNumbered [] w n = n
  mark_all-IsNumbered (p ∷ ps) w n =
      mark_all-IsNumbered ps (mark_tombstone p w)
        (push_tombstone-IsNumbered (last_valid_at (find p w.path_to_id) w.existing_documents) w n)

  mark_all-paths :
      (ps : List K) (w : DeltaSegmentWriter K T) → all_paths (mark_all ps w) ≡ all_paths w
  unfolding all_paths
  mark_all-paths = mark_all-keeps all_paths (λ w ids. refl)

  mark_all-documents :
      (ps : List K) (w : DeltaSegmentWriter K T)
      → all_documents (mark_all ps w)
        ≡ mark (mark_all ps w).tombstone_doc_ids w.existing_documents ++ w.new_documents
  unfolding all_documents
  mark_all-documents ps w =
      rw
        (
          mark_all-keeps (λ v. v.existing_documents) (λ v ids. refl) ps w,
          mark_all-keeps (λ v. v.new_documents) (λ v ids. refl) ps w,
        )
        refl

module _ {K : Type 0} (T : Type 0) ⦃e : Eq K⦄ ⦃e' : Eq T⦄ where
  new-paths :
      (segment_id : ℕ) (documents : List Document) (paths : List K)
      → all_paths (new {T = T} segment_id documents paths) ≡ paths
  unfolding new all_paths
  new-paths segment_id documents paths = append-nil paths

  marked-documents :
      (ps : List K) (segment_id : ℕ) (documents : List Document) (paths : List K)
      → all_documents (mark_all ps (new {T = T} segment_id documents paths))
        ≡ mark (mark_all ps (new {T = T} segment_id documents paths)).tombstone_doc_ids documents
  unfolding new
  marked-documents ps segment_id documents paths =
      mark_all-documents ps (new {T = T} segment_id documents paths) ∙ append-nil _

  marked-free :
      (p : K) (ps : List K) (segment_id : ℕ) (documents : List Document) (paths : List K) (i : ℕ)
      → mem p ps ≡ true
      → find p (new {T = T} segment_id documents paths).path_to_id ≡ some i
      → count (is_of i) documents ≤ 1
      → count (is_of i) (all_documents (mark_all ps (new {T = T} segment_id documents paths))) ≡ 0
  unfolding new
  marked-free p ps segment_id documents paths i h at once =
      let w = new {T = T} segment_id documents paths in
      let ids = (mark_all ps w).tombstone_doc_ids in
      rw (marked-documents ps segment_id documents paths)
        (elim (Option-cases (last_valid i documents)) [
          | inl none_left ↦
              omega (arith, count-mark-le ids i documents, count-last_valid i documents none_left)
          | inr (id, last) ↦
              count-mark_last ids i id documents once last (mark_all-marks p ps w i id h at last)
        ])

  marked-IsReady :
      (batch : ChangeBatch K) (segment_id : ℕ) (documents : List Document) (paths : List K)
      → IsIndexed documents paths
      → AreFresh batch documents paths
      → length paths + length (batch.created ++ batch.modified) < 2 ^ 32
      → IsReady
          (mark_all (batch.deleted ++ batch.modified) (new {T = T} segment_id documents paths))
          (batch.created ++ batch.modified)
  marked-IsReady batch segment_id documents paths x f n =
      let w = new {T = T} segment_id documents paths in
      let marks = batch.deleted ++ batch.modified in
      let numbered = new-IsNumbered segment_id documents paths x.unique (omega arith) in
      let same_paths = mark_all-paths marks w ∙ new-paths segment_id documents paths in
      let same_ids = mark_all-keeps (λ v. v.path_to_id) (λ v ids. refl) marks w in
      let same_documents = marked-documents marks segment_id documents paths in
      let ids = (mark_all marks w).tombstone_doc_ids in
      record {
        numbered = mark_all-IsNumbered marks w numbered;
        unique = record {
          once = λ i. rw same_documents (omega (arith, x.once i, count-mark-le ids i documents));
          within = λ i out. rw same_documents (
              let wide : length paths ≤ i = rw (sym same_paths) out in
              omega (arith, x.within i wide, count-mark-le ids i documents));
        };
        free = λ p member i found.
            let there : find p w.path_to_id ≡ some i = rw (sym same_ids) found in
            let known = numbered.numbers.known p i there in
            let at : get_elem? paths i ≡ some p =
              rw (sym (new-paths segment_id documents paths)) known in
            let gone : mem p marks ≡ true → count (is_of i) (all_documents (mark_all marks w)) ≡ 0 =
              λ h. marked-free p marks segment_id documents paths i h there (x.once i) in
            let in_batch = mem-append p batch.created batch.modified in
            let in_marks = mem-append p batch.deleted batch.modified in
            elim (Bool-cases (mem p marks)) [
              | inl marked ↦ gone marked
              | inr left ↦
                  let created : mem p batch.created ≡ true = ground arith in
                  elim (f p i created at) [
                    | inl deleted ↦ absurd (ground arith)
                    | inr empty ↦ rw same_documents (omega (arith, count-mark-le ids i documents))
                  ]
            ];
        room = rw same_paths n;
      }

-- Take an index whose list of paths names no path twice, in which no path has two valid documents
-- and only the paths of the list have valid documents. Let a batch name no path twice among its
-- created and modified paths, let each created path that has a valid document stand among the
-- deleted paths too, let processing a path give a file of that path, and let the paths stay below
-- 2^32. Then the documents and paths that apply_incremental_update leaves are such an index again.
pub apply_incremental_update-IsIndexed :
    {K T : Type 0} ⦃e : Eq K⦄ ⦃e' : Eq T⦄ (process : K → Option (ProcessedFile K T))
    (names : (p : K) (f : ProcessedFile K T) → process p ≡ some f → f.rel_path ≡ p)
    (batch : ChangeBatch K) (segment_id : ℕ) (documents : List Document) (paths : List K)
    → IsIndexed documents paths
    → distinct (batch.created ++ batch.modified) ≡ true
    → AreFresh batch documents paths
    → length paths + length (batch.created ++ batch.modified) < 2 ^ 32
    → (let w = apply_incremental_update process batch (new segment_id documents paths) in
        IsIndexed (all_documents w) (all_paths w))
unfolding apply_incremental_update
apply_incremental_update-IsIndexed {T = T} process names batch segment_id documents paths x u f n =
    let ready = marked-IsReady T batch segment_id documents paths x f n in
    let marked = mark_all (batch.deleted ++ batch.modified) (new segment_id documents paths) in
    let done = add_files-IsReady process names (batch.created ++ batch.modified) marked ready u in
    record {
      unique = done.numbered.numbers.unique;
      once = done.unique.once;
      within = done.unique.within;
    }
