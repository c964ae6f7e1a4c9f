-- ===== src/Index/Delta/Unique.antt =====
-- At most one valid document for a path, from one update of the index to the next.
use fxi.Base.{
  ℕ, ◌+◌, ◌^◌, ◌<◌, ◌≤◌, ◌≡◌, refl, sym, ◌∙◌, arith, Bool, true, false, Option, some, List, [], ◌∷◌,
  ◌++◌, length, get_elem?-length, ◌==◌, ==_iff, if◌then◌else◌, Option-cases, inl, inr,
}
use fxi.Base.Keys.{Eq, nat_eq, mem, distinct, find, beq_refl}
use fxi.Base.Numbers.{known-injective}
use fxi.Index.Documents.{Document}
use fxi.Index.Delta.{
  ProcessedFile, DeltaSegmentWriter, count, mark, push_file, add_file, add_files, all_documents,
  all_paths, get_or_create_path_id, u32,
}
use fxi.Index.Delta.Marks.{is_of}
use fxi.Index.Delta.PathIds.{IsNumbered, IsAssigned, get_or_create_path_id-IsAssigned}

count-append :
    (test : Document → Bool) (ds es : List Document)
    → count test (ds ++ es) ≡ count test ds + count test es
count-append test [] es = omega arith
count-append test (d ∷ ds) es = omega (arith, count-append test ds es)

is_of-at : (j : ℕ) (d : Document) → (if is_of j d then 1 else 0) ≤ (if d.path_id == j then 1 else 0)
is_of-at j d = ground arith

module _ {K T : Type 0} ⦃e : Eq K⦄ ⦃e' : Eq T⦄ where
  -- No path has two valid documents, and only the paths of the list have any.
  pub record IsUnique (w : DeltaSegmentWriter K T) : Type 0 where
    pub once : (i : ℕ) → count (is_of i) (all_documents w) ≤ 1
    pub within : (i : ℕ) → length (all_paths w) ≤ i → count (is_of i) (all_documents w) ≡ 0

  -- A path that has no valid document.
  abbrev pub Free : DeltaSegmentWriter K T → K → Type 0
  Free w p = (i : ℕ) → find p w.path_to_id ≡ some i → count (is_of i) (all_documents w) ≡ 0

  push_file-count :
      (doc_id : ℕ) (f : ProcessedFile K T) (i j : ℕ) (w : DeltaSegmentWriter K T)
      → count (is_of j) (all_documents (push_file doc_id f i w))
        ≤ count (is_of j) (all_documents w) + (if i == j then 1 else 0)
  unfolding push_file all_documents
  push_file-count doc_id f i j w =
      let before = mark w.tombstone_doc_ids w.existing_documents in
      let d : Document = record {
        doc_id = doc_id;
        path_id = i;
        size = f.size;
        mtime = f.mtime;
        language = f.language;
        flags = f.flags;
        segment_id = w.segment_id;
      } in
      omega (
        arith,
        count-append (is_of j) before (w.new_documents ++ (d ∷ [])),
        count-append (is_of j) w.new_documents (d ∷ []),
        count-append (is_of j) before w.new_documents,
        is_of-at j d,
      )

  -- The state in which the files of the given paths are still to be added.
  pub record IsReady (w : DeltaSegmentWriter K T) (ps : List K) : Type 0 where
    pub numbered : IsNumbered w
    pub unique : IsUnique w
    pub free : (p : K) → mem p ps ≡ true → Free w p
    pub room : length (all_paths w) + length ps < 2 ^ 32

  push_file-IsNumbered :
      (doc_id : ℕ) (f : ProcessedFile K T) (i : ℕ) (w : DeltaSegmentWriter K T)
      → IsNumbered w
      → IsNumbered (push_file doc_id f i w)
  unfolding push_file all_paths
  push_file-IsNumbered doc_id f i w n = record { numbers = n.numbers; next = n.next }

  -- The number a path gets belongs to no valid document, if the path has none.
  assigned_is_unused :
      (w : DeltaSegmentWriter K T) (p : K) (r : ℕ × DeltaSegmentWriter K T)
      → IsAssigned w p r
      → IsUnique w
      → Free w p
      → count (is_of r.0) (all_documents w) ≡ 0
  assigned_is_unused w p r a u h = elim a.origin [
    | inl found ↦ h r.0 found
    | inr at ↦ u.within r.0 (omega arith)
  ]

  push_file-paths :
      (doc_id : ℕ) (f : ProcessedFile K T) (i : ℕ) (w : DeltaSegmentWriter K T)
      → (all_paths (push_file doc_id f i w) ≡ all_paths w)
        × ((push_file doc_id f i w).path_to_id ≡ w.path_to_id)
  unfolding push_file all_paths
  push_file-paths doc_id f i w = (refl, refl)

  push_file-IsReady :
      (p : K) (ps : List K) (doc_id : ℕ) (f : ProcessedFile K T) (w : DeltaSegmentWriter K T)
      (r : ℕ × DeltaSegmentWriter K T)
      → IsReady w (p ∷ ps)
      → distinct (p ∷ ps) ≡ true
      → IsAssigned w p r
      → IsReady (push_file doc_id f r.0 r.1) ps
  push_file-IsReady p ps doc_id f w r h u a =
      let at = get_elem?-length (all_paths r.1) r.0 (a.numbered.numbers.known p r.0 a.assigned) in
      let empty = assigned_is_unused w p r a h.unique (h.free p (ground (arith, beq_refl p))) in
      let (same_paths, same_ids) = push_file-paths doc_id f r.0 r.1 in
      let added : (j : ℕ)
          → count (is_of j) (all_documents (push_file doc_id f r.0 r.1))
            ≤ count (is_of j) (all_documents w) + (if r.0 == j then 1 else 0) =
        λ j. rw (sym a.kept) (push_file-count doc_id f r.0 j r.1) in
      record {
        numbered = push_file-IsNumbered doc_id f r.0 r.1 a.numbered;
        unique = record {
          once = λ j. ground (arith, added j, h.unique.once j, ==_iff r.0 j);
          within = λ j out.
              let wide : length (all_paths r.1) ≤ j = rw (sym same_paths) out in
              ground (arith, added j, h.unique.within j, a.grows, ==_iff r.0 j);
        };
        free = λ q member j found.
            let there : find q r.1.path_to_id ≡ some j = rw (sym same_ids) found in
            let other : e.beq p q ≡ false = ground (arith, e.beq_iff p q) in
            let before : find q w.path_to_id ≡ some j = sym (a.others q other) ∙ there in
            let empty_before = h.free q (ground arith) j before in
            let apart : r.0 ≡ j → p ≡ q = λ same.
              known-injective r.1.path_to_id (all_paths r.1) p q r.0 a.numbered.numbers a.assigned
                (rw same there) in
            ground (arith, added j, ==_iff r.0 j, apart, e.beq_iff p q);
        room = rw same_paths (let by_one = a.by_one in let room = h.room in omega arith);
      }

  step-IsReady :
      (w : DeltaSegmentWriter K T) (n : ℕ) (ps : List K)
      → IsReady w ps
      → IsReady (record w { next_doc_id = n }) ps
  unfolding all_paths all_documents
  step-IsReady w n ps h = record {
    numbered = record { numbers = h.numbered.numbers; next = h.numbered.next };
    unique = record { once = h.unique.once; within = h.unique.within };
    free = h.free;
    room = h.room;
  }

  add_file-IsReady :
      (f : ProcessedFile K T) (p : K) (ps : List K) (w : DeltaSegmentWriter K T)
      → f.rel_path ≡ p
      → IsReady w (p ∷ ps)
      → distinct (p ∷ ps) ≡ true
      → IsReady (add_file f w) ps
  unfolding add_file
  add_file-IsReady f p ps w at h u =
      let w₁ = record w { next_doc_id = u32 (w.next_doc_id + 1) } in
      let ready = step-IsReady w (u32 (w.next_doc_id + 1)) (p ∷ ps) h in
      let assigned =
        get_or_create_path_id-IsAssigned p w₁ ready.numbered (omega (arith, ready.room)) in
      rw at
        (push_file-IsReady p ps w.next_doc_id f w₁ (get_or_create_path_id p w₁) ready u assigned)

  skip-IsReady :
      (p : K) (ps : List K) (w : DeltaSegmentWriter K T) → IsReady w (p ∷ ps) → IsReady w ps
  skip-IsReady p ps w h = record {
    numbered = h.numbered;
    unique = h.unique;
    free = λ q member. h.free q (ground arith);
    room = omega (arith, h.room);
  }

  module _ (process : K → Option (ProcessedFile K T))
      (names : (p : K) (f : ProcessedFile K T) → process p ≡ some f → f.rel_path ≡ p) where
    pub add_files-IsReady :
        (ps : List K) (w : DeltaSegmentWriter K T)
        → IsReady w ps
        → distinct ps ≡ true
        → IsReady (add_files process ps w) []
    add_files-IsReady [] w h u = h
    add_files-IsReady (p ∷ ps) w h u =
        let rest_distinct : distinct ps ≡ true = ground arith in
        elim (Option-cases (process p)) [
          | inl gone ↦ rw gone (add_files-IsReady ps w (skip-IsReady p ps w h) rest_distinct)
          | inr (f, is) ↦ rw is (
              add_files-IsReady ps (add_file f w) (add_file-IsReady f p ps w (names p f is) h u)
                rest_distinct)
        ]
