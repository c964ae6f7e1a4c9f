-- ===== src/Index/Compaction/Rounds.antt =====
-- One round of the loop that numbers the documents a merge keeps.
use fxi.Base.{
  ℕ, ◌+◌, ◌^◌, ◌≡◌, ◌≤◌, ◌<◌, refl, sym, ◌∙◌, arith, Bool, true, false, ◌&&◌, none, some, List, [],
  ◌∷◌, ◌++◌, length, length-append, length-set, get_elem?, get_elem?-append, get_elem?-append_last,
  get_or, get_or-set_self, get_or-set_ne, ◌==◌, Bool-cases, Option-cases, inl, inr,
}
use fxi.Base.Keys.{nat_eq, find, put, find-put}
use fxi.Index.Documents.{Document, is_valid}
use fxi.Index.Delta.{u32}
use fxi.Index.Compaction.{DocIdRemapping, remap, keep_doc, keep, remap_doc}

module _ {P : Type 0} where
  -- A document stays if it is valid and its path is known.
  abbrev pub stays : List P → Document → Bool
  stays paths d = is_valid d && (elim (get_elem? paths d.path_id) [ none ↦ false | some p ↦ true ])

  -- A document that stays is found under its new id, in the place of that id, as it was but for its
  -- numbers, and with its path; any other document has no new id.
  pub data IsRemapped (r : DocIdRemapping P) (paths : List P) (d : Document) : Type 0 where
    gone : stays paths d ≡ false → remap r d.doc_id ≡ none → IsRemapped r paths d
    moved :
        (place path_id : ℕ) (path : P)
        → stays paths d ≡ true
        → remap r d.doc_id ≡ some (place + 1)
        → get_elem? r.valid_docs place
          ≡ some (record d { doc_id = place + 1; path_id = path_id; segment_id = 1 })
        → get_elem? r.valid_paths path_id ≡ some path
        → get_elem? paths d.path_id ≡ some path
        → IsRemapped r paths d

  -- What holds after some documents.
  pub record IsBuilt (paths : List P) (size count : ℕ) (r : DocIdRemapping P) : Type 0 where
    pub sized : length r.old_to_new ≡ size
    pub next : r.next_doc_id ≡ length r.valid_docs + 1
    pub docs_few : length r.valid_docs ≤ count
    pub paths_few : length r.valid_paths ≤ count
    pub known :
        (i n : ℕ)
        → find i r.path_id_remap ≡ some n
        → (p : P) × (get_elem? r.valid_paths n ≡ some p) × (get_elem? paths i ≡ some p)

  -- The id of a document that has not been seen is not in use.
  unfoldable pub IsUnused : DocIdRemapping P → Document → Type 0
  IsUnused r d = get_or r.old_to_new d.doc_id 0 ≡ 0

  remap-none : (r : DocIdRemapping P) (id : ℕ) → get_or r.old_to_new id 0 ≡ 0 → remap r id ≡ none
  unfolding remap
  remap-none r id h = ground arith

  remap-some :
      (r : DocIdRemapping P) (id n : ℕ)
      → get_or r.old_to_new id 0 ≡ n + 1
      → remap r id ≡ some (n + 1)
  unfolding remap
  remap-some r id n h = ground arith

  remap-same :
      (r r' : DocIdRemapping P) (id : ℕ)
      → get_or r'.old_to_new id 0 ≡ get_or r.old_to_new id 0
      → remap r' id ≡ remap r id
  unfolding remap
  remap-same r r' id h = rw h refl

  -- One document's round of the loop.
  pub record IsStep (paths : List P) (size count : ℕ) (doc : Document) (r r' : DocIdRemapping P)
      : Type 0 where
    pub built : IsBuilt paths size (count + 1) r'
    pub this : IsRemapped r' paths doc
    pub others :
        (d : Document) → ¬ (d.doc_id ≡ doc.doc_id) → IsRemapped r paths d → IsRemapped r' paths d
    pub unused : (d : Document) → ¬ (d.doc_id ≡ doc.doc_id) → IsUnused r d → IsUnused r' d

  -- The paths of a state may have grown.
  Grows : List P → List P → Type 0
  Grows xs ys = (n : ℕ) (p : P) → get_elem? xs n ≡ some p → get_elem? ys n ≡ some p

  keep_doc-others :
      (paths : List P) (doc d : Document) (pid : ℕ) (more : List P) (m : List (ℕ × ℕ))
      (r : DocIdRemapping P)
      → Grows r.valid_paths more
      → ¬ (d.doc_id ≡ doc.doc_id)
      → IsRemapped r paths d
      → IsRemapped (keep_doc doc pid (record r { valid_paths = more; path_id_remap = m })) paths d
  unfolding Grows
  keep_doc-others paths doc d pid more m r grows apart (IsRemapped.gone lost h) =
      let next = keep_doc doc pid (record r { valid_paths = more; path_id_remap = m }) in
      let same =
        get_or-set_ne r.old_to_new doc.doc_id d.doc_id r.next_doc_id 0 (λ e. apart (sym e)) in
      IsRemapped.gone lost (remap-same r next d.doc_id same ∙ h)
  keep_doc-others paths doc d pid more m r grows apart
        (IsRemapped.moved place path_id path kept h at found is) =
      let next = keep_doc doc pid (record r { valid_paths = more; path_id_remap = m }) in
      let same =
        get_or-set_ne r.old_to_new doc.doc_id d.doc_id r.next_doc_id 0 (λ e. apart (sym e)) in
      IsRemapped.moved place path_id path kept (remap-same r next d.doc_id same ∙ h)
        (get_elem?-append r.valid_docs _ place at) (grows path_id path found) is

  keep_doc-IsStep :
      (paths : List P) (size count : ℕ) (doc : Document) (pid : ℕ) (path : P) (more : List P)
      (m : List (ℕ × ℕ)) (r : DocIdRemapping P)
      → IsBuilt paths size count r
      → Grows r.valid_paths more
      → length more ≤ count + 1
      → ((i n : ℕ)
          → find i m ≡ some n
          → (p : P) × (get_elem? more n ≡ some p) × (get_elem? paths i ≡ some p))
      → stays paths doc ≡ true
      → doc.doc_id < size
      → count + 2 < 2 ^ 32
      → get_elem? more pid ≡ some path
      → get_elem? paths doc.path_id ≡ some path
      → IsStep paths size count doc r
          (keep_doc doc pid (record r { valid_paths = more; path_id_remap = m }))
  unfolding IsUnused
  keep_doc-IsStep paths size count doc pid path more m r b grows few known kept inside small found
        is =
      let next = keep_doc doc pid (record r { valid_paths = more; path_id_remap = m }) in
      let place = length r.valid_docs in
      let new_doc = record doc { doc_id = r.next_doc_id; path_id = pid; segment_id = 1 } in
      let at = get_elem?-append_last r.valid_docs new_doc in
      let stored =
        get_or-set_self r.old_to_new doc.doc_id r.next_doc_id 0 (omega (arith, b.sized)) in
      record {
        built = record {
          sized = length-set r.old_to_new doc.doc_id r.next_doc_id ∙ b.sized;
          next = omega (arith, b.next, b.docs_few, length-append r.valid_docs (new_doc ∷ []));
          docs_few = omega (arith, b.docs_few, length-append r.valid_docs (new_doc ∷ []));
          paths_few = few;
          known = known;
        };
        this =
            IsRemapped.moved place pid path kept
              (remap-some next doc.doc_id place (stored ∙ b.next)) (rw (sym b.next) at) found is;
        others = λ d apart h. keep_doc-others paths doc d pid more m r grows apart h;
        unused = λ d apart h.
            get_or-set_ne r.old_to_new doc.doc_id d.doc_id r.next_doc_id 0 (λ e. apart (sym e)) ∙ h;
      }

  skip-IsStep :
      (paths : List P) (size count : ℕ) (doc : Document) (r : DocIdRemapping P)
      → IsBuilt paths size count r
      → IsUnused r doc
      → stays paths doc ≡ false
      → IsStep paths size count doc r r
  unfolding IsUnused
  skip-IsStep paths size count doc r b free lost = record {
    built = record {
      sized = b.sized;
      next = b.next;
      docs_few = omega (arith, b.docs_few);
      paths_few = omega (arith, b.paths_few);
      known = b.known;
    };
    this = IsRemapped.gone lost (remap-none r doc.doc_id free);
    others = λ d apart h. h;
    unused = λ d apart h. h;
  }

  stays_valid :
      (paths : List P) (doc : Document) (path : P)
      → is_valid doc ≡ true
      → get_elem? paths doc.path_id ≡ some path
      → stays paths doc ≡ true
  stays_valid paths doc path valid is = rw (valid, is) refl

  known_put :
      (paths : List P) (size count : ℕ) (doc : Document) (path : P) (r : DocIdRemapping P)
      → IsBuilt paths size count r
      → get_elem? paths doc.path_id ≡ some path
      → (i n : ℕ) → find i (put doc.path_id (length r.valid_paths) r.path_id_remap) ≡ some n
      → (p : P) × (get_elem? (r.valid_paths ++ (path ∷ [])) n ≡ some p)
        × (get_elem? paths i ≡ some p)
  known_put paths size count doc path r b is i n h =
      let new_id = length r.valid_paths in
      let here = find-put doc.path_id i new_id r.path_id_remap in
      elim (Bool-cases (doc.path_id == i)) [
        | inl same ↦
            let one : doc.path_id ≡ i = ground arith in
            let at : n ≡ new_id = ground arith in
            (path, rw at (get_elem?-append_last r.valid_paths path), rw (sym one) is)
        | inr other ↦
            let before : find i r.path_id_remap ≡ some n = ground arith in
            let (p, there, known) = b.known i n before in
            (p, get_elem?-append r.valid_paths (path ∷ []) n there, known)
      ]

  keep-IsStep :
      (paths : List P) (size count : ℕ) (doc : Document) (r : DocIdRemapping P)
      → IsBuilt paths size count r
      → IsUnused r doc
      → is_valid doc ≡ true
      → doc.doc_id < size
      → count + 2 < 2 ^ 32
      → IsStep paths size count doc r (keep paths doc (find doc.path_id r.path_id_remap) r)
  unfolding Grows
  keep-IsStep paths size count doc r b free valid inside small =
      elim (Option-cases (find doc.path_id r.path_id_remap)) [
        | inr (pid, found) ↦
            let (path, there, is) = b.known doc.path_id pid found in
            rw found (
              keep_doc-IsStep paths size count doc pid path r.valid_paths r.path_id_remap r b
                (λ n p h. h) (omega (arith, b.paths_few)) b.known
                (stays_valid paths doc path valid is) inside small there is)
        | inl fresh ↦ elim (Option-cases (get_elem? paths doc.path_id)) [
          | inl unknown ↦
              rw (fresh, unknown)
                (skip-IsStep paths size count doc r b free (rw (valid, unknown) refl))
          | inr (path, is) ↦
              let new_id = length r.valid_paths in
              let fits : u32 new_id ≡ new_id = omega (arith, b.paths_few) in
              let more = r.valid_paths ++ (path ∷ []) in
              let m = put doc.path_id new_id r.path_id_remap in
              rw (fresh, is, fits)
                (keep_doc-IsStep paths size count doc new_id path more m r b
                  (λ n p h. get_elem?-append r.valid_paths (path ∷ []) n h)
                  (omega (arith, b.paths_few, length-append r.valid_paths (path ∷ [])))
                  (known_put paths size count doc path r b is) (stays_valid paths doc path valid is)
                  inside small (get_elem?-append_last r.valid_paths path) is)
        ]
      ]

  pub remap_doc-IsStep :
      (paths : List P) (size count : ℕ) (doc : Document) (r : DocIdRemapping P)
      → IsBuilt paths size count r
      → IsUnused r doc
      → doc.doc_id < size
      → count + 2 < 2 ^ 32
      → IsStep paths size count doc r (remap_doc paths doc r)
  remap_doc-IsStep paths size count doc r b free inside small = elim (Bool-cases (is_valid doc)) [
    | inl valid ↦ rw valid (keep-IsStep paths size count doc r b free valid inside small)
    | inr stale ↦ rw stale (skip-IsStep paths size count doc r b free (rw stale refl))
  ]
