-- ===== src/Index/Delta/PathIds.antt =====
-- How path_to_id stands to the list of paths.
use fxi.Base.{
  ℕ, suc, ◌+◌, ◌^◌, ◌<◌, ◌≤◌, ◌≡◌, refl, arith, true, false, Option, none, some, List, [], ◌∷◌,
  ◌++◌, length, get_elem?, length-append, sym, append-nil, append_assoc, Bool-cases, ◌⊎◌, inl, inr,
}
use fxi.Base.Keys.{Eq, mem, distinct, find, put, find-put, beq_refl}
use fxi.Base.Numbers.{Numbers, push-Numbers}
use fxi.Index.Documents.{Document}
use fxi.Index.Delta.{
  DeltaSegmentWriter, number_paths, all_paths, all_documents, get_or_create, get_or_create_path_id,
  new, u32,
}

module _ {K : Type 0} ⦃e : Eq K⦄ where
  -- A number in the map is the path's position, or stood in the map before.
  number_paths_sound :
      (p : K) (i idx : ℕ) (ps : List K) (m : List (K × ℕ))
      → idx + length ps < 2 ^ 32
      → find p (number_paths idx ps m) ≡ some i
      → (find p m ≡ some i) ⊎ ((j : ℕ) × (i ≡ idx + j) × (get_elem? ps j ≡ some p))
  unfolding number_paths
  number_paths_sound p i idx [] m n h = inl h
  number_paths_sound p i idx (q ∷ ps) m n h =
      let fits : u32 idx ≡ idx = omega arith in
      let here = find-put q p (u32 idx) m in
      elim (number_paths_sound p i (idx + 1) ps (put q (u32 idx) m) (omega arith) h) [
        | inl found ↦ elim (Bool-cases (e.beq q p)) [
          | inl same ↦ inr (0, ground arith, ground (arith, e.beq_iff q p))
          | inr other ↦ inl (ground arith)
        ]
        | inr (j, at, is) ↦ inr (suc j, omega arith, is)
      ]

  number_paths_complete :
      (p : K) (idx : ℕ) (ps : List K) (m : List (K × ℕ))
      → find p (number_paths idx ps m) ≡ none
      → (find p m ≡ none) × (mem p ps ≡ false)
  unfolding number_paths
  number_paths_complete p idx [] m h = (h, refl)
  number_paths_complete p idx (q ∷ ps) m h =
      let (gone, absent) = number_paths_complete p (idx + 1) ps (put q (u32 idx) m) h in
      let here = find-put q p (u32 idx) m in
      (ground arith, ground (arith, e.beq_iff q p, e.beq_iff p q))

module _ {K T : Type 0} ⦃e : Eq K⦄ ⦃e' : Eq T⦄ where
  -- What path_to_id says of the paths so far.
  pub record IsNumbered (w : DeltaSegmentWriter K T) : Type 0 where
    pub numbers : Numbers w.path_to_id (all_paths w)
    pub next : w.next_path_id ≡ length (all_paths w)

  pub new-IsNumbered :
      (segment_id : ℕ) (documents : List Document) (paths : List K)
      → distinct paths ≡ true
      → length paths < 2 ^ 32
      → IsNumbered (new segment_id documents paths)
  unfolding new all_paths
  new-IsNumbered segment_id documents paths u n = record {
    numbers = record {
      known = λ p i h.
          rw (append-nil paths) (elim (number_paths_sound p i 0 paths [] (omega arith) h) [
            | inl found ↦ absurd (ground arith)
            | inr (j, at, is) ↦ (let same : i ≡ j = omega arith in rw same is)
          ]);
      unknown = λ p h. rw (append-nil paths) (number_paths_complete p 0 paths [] h).1;
      unique = rw (append-nil paths) u;
    };
    next = rw (append-nil paths) (omega arith);
  }

  create-IsNumbered :
      (w : DeltaSegmentWriter K T) (p : K)
      → IsNumbered w
      → find p w.path_to_id ≡ none
      → length (all_paths w) + 1 < 2 ^ 32
      → IsNumbered (get_or_create none p w).1
  unfolding all_paths
  create-IsNumbered w p n h fits =
      let paths = w.existing_paths ++ w.new_paths in
      let shape = append_assoc w.existing_paths w.new_paths (p ∷ []) in
      let number = n.next in
      let measured = length-append paths (p ∷ []) in
      record {
        numbers = rw (sym shape, number) (push-Numbers w.path_to_id paths p n.numbers h);
        next = rw (sym shape) (rw measured (omega arith));
      }

  length-create :
      (w : DeltaSegmentWriter K T) (p : K)
      → length (all_paths (get_or_create none p w).1) ≡ length (all_paths w) + 1
  unfolding all_paths
  length-create w p = omega (
    arith,
    length-append w.existing_paths w.new_paths,
    length-append w.existing_paths (w.new_paths ++ (p ∷ [])),
    length-append w.new_paths (p ∷ []),
  )

  all_documents-create :
      (w : DeltaSegmentWriter K T) (p : K)
      → all_documents (get_or_create none p w).1 ≡ all_documents w
  unfolding all_documents
  all_documents-create w p = refl

  -- What get_or_create_path_id leaves, with the number it returns.
  pub record IsAssigned (w : DeltaSegmentWriter K T) (p : K) (r : ℕ × DeltaSegmentWriter K T)
      : Type 0 where
    pub numbered : IsNumbered r.1
    pub assigned : find p r.1.path_to_id ≡ some r.0
    pub others : (q : K) → e.beq p q ≡ false → find q r.1.path_to_id ≡ find q w.path_to_id
    pub origin : (find p w.path_to_id ≡ some r.0) ⊎ (r.0 ≡ length (all_paths w))
    pub grows : length (all_paths w) ≤ length (all_paths r.1)
    pub by_one : length (all_paths r.1) ≤ length (all_paths w) + 1
    pub kept : all_documents r.1 ≡ all_documents w

  get_or_create-IsAssigned :
      (found : Option ℕ) (p : K) (w : DeltaSegmentWriter K T)
      → find p w.path_to_id ≡ found
      → IsNumbered w
      → length (all_paths w) + 1 < 2 ^ 32
      → IsAssigned w p (get_or_create found p w)
  get_or_create-IsAssigned (some i) p w h n fits = record {
    numbered = n;
    assigned = h;
    others = λ q other. refl;
    origin = inl h;
    grows = omega arith;
    by_one = omega arith;
    kept = refl;
  }
  get_or_create-IsAssigned none p w h n fits = record {
    numbered = create-IsNumbered w p n h fits;
    assigned = rw (find-put p p w.next_path_id w.path_to_id) (ground (arith, beq_refl p));
    others = λ q other. rw (find-put p q w.next_path_id w.path_to_id, other) refl;
    origin = inr n.next;
    grows = omega (arith, length-create w p);
    by_one = omega (arith, length-create w p);
    kept = all_documents-create w p;
  }

  pub get_or_create_path_id-IsAssigned :
      (p : K) (w : DeltaSegmentWriter K T)
      → IsNumbered w
      → length (all_paths w) + 1 < 2 ^ 32
      → IsAssigned w p (get_or_create_path_id p w)
  unfolding get_or_create_path_id
  get_or_create_path_id-IsAssigned p w n fits =
      get_or_create-IsAssigned (find p w.path_to_id) p w refl n fits
