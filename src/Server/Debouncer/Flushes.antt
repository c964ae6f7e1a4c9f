-- ===== src/Server/Debouncer/Flushes.antt =====
-- When the debouncer of src/server/debouncer.rs hands out a batch, and what is in it.
use fxi.Base.{
  ℕ, ◌+◌, ◌≤◌, ◌<◌, ◌≡◌, refl, arith, true, false, Option, none, some, List, [], ◌∷◌, Bool-cases,
  inl, inr, ◌∙◌, ap, sym,
}
use fxi.Base.Keys.{Eq, mem, find, keys, distinct, find-absent, beq_refl}
use fxi.Server.Changes.{ChangeKind, ChangeBatch, new, null, is_empty, add}
use fxi.Server.Changes.Mirrors.{IsConsistent, new-IsConsistent, add_kind-IsConsistent}
use fxi.Server.Changes.Batches.{View, view, change_view, view-add_kind}
use fxi.Server.Debouncer.{
  EventDebouncer, is_ready, has_pending, no_pending, batch_of, emptied, tick,
}

-- The view that an entry gives to a path.
abbrev pub entry_view : Option ChangeKind → View → View
entry_view none v = v
entry_view (some kind) v = change_view kind v

abbrev pub no_view : View
no_view = record { in_created = false; in_modified = false; in_deleted = false }

entry_view-ne : (kind : ChangeKind) → entry_view (some kind) no_view ≡ no_view → ⊥
entry_view-ne ChangeKind.created h = ground arith
entry_view-ne ChangeKind.modified h = ground arith
entry_view-ne ChangeKind.deleted h = ground arith
entry_view-ne ChangeKind.renamed h = ground arith

module _ {K : Type 0} ⦃e : Eq K⦄ where
  -- Draining a hash map gives its entries, each once, in some order.
  abbrev pub Drains : (List (K × ChangeKind) → List (K × ChangeKind)) → Type 0
  Drains drain =
      (m : List (K × ChangeKind))
      → distinct (keys m) ≡ true
      → (distinct (keys (drain m)) ≡ true) × ((j : K) → find j (drain m) ≡ find j m)

  batch_of-IsConsistent :
      (b : ChangeBatch K) (m : List (K × ChangeKind)) → IsConsistent b → IsConsistent (batch_of b m)
  unfolding batch_of add
  batch_of-IsConsistent b [] c = c
  batch_of-IsConsistent b ((path, kind) ∷ m) c =
      batch_of-IsConsistent (add b (record { path = path; kind = kind })) m
        (add_kind-IsConsistent b path kind c)

  view-batch_of :
      (b : ChangeBatch K) (m : List (K × ChangeKind)) (j : K)
      → IsConsistent b
      → distinct (keys m) ≡ true
      → view (batch_of b m) j ≡ entry_view (find j m) (view b j)
  unfolding batch_of add
  view-batch_of b [] j c h = refl
  view-batch_of b ((path, kind) ∷ m) j c h =
      let b' = add b (record { path = path; kind = kind }) in
      let step = view-add_kind b path kind j c in
      let rest = view-batch_of b' m j (add_kind-IsConsistent b path kind c) (ground arith) in
      elim (Bool-cases (e.beq j path)) [
        | inl t ↦
            let same = (e.beq_iff j path).0 t in
            let absent : find j m ≡ none = rw same (find-absent path m (ground arith)) in
            let back : e.beq path j ≡ true = (e.beq_iff path j).1 (sym same) in
            rw t (rest ∙ rw absent (step ∙ rw back refl))
        | inr t ↦
            let back : e.beq path j ≡ false = ground (arith, e.beq_iff path j, e.beq_iff j path) in
            rw t (rest ∙ ap (entry_view (find j m)) (step ∙ rw back refl))
      ]

  not_empty : (b : ChangeBatch K) (j : K) → is_empty b ≡ true → view b j ≡ no_view
  unfolding is_empty
  not_empty b j h =
      ground (arith, null-mem b.created j, null-mem b.modified j, null-mem b.deleted j)
    where
      null-mem : (xs : List K) (k : K) → null xs ≡ true → mem k xs ≡ false
      null-mem [] k h' = refl
      null-mem (x ∷ xs) k h' = absurd (ground arith)

  -- What a batch is to the entries that it was made from.
  pub record Holds (b : ChangeBatch K) (m : List (K × ChangeKind)) : Type 0 where
    pub consistent : IsConsistent b
    pub views : (j : K) → view b j ≡ entry_view (find j m) no_view

  pub Holds-batch_of :
      (drain : List (K × ChangeKind) → List (K × ChangeKind))
      → Drains drain
      → (m : List (K × ChangeKind)) → distinct (keys m) ≡ true
      → Holds (batch_of new (drain m)) m
  Holds-batch_of drain d m h = record {
    consistent = batch_of-IsConsistent new (drain m) new-IsConsistent;
    views = λ j. view-batch_of new (drain m) j new-IsConsistent (d m h).0 ∙ rw ((d m h).1 j) refl;
  }

  Holds-nonempty :
      (b : ChangeBatch K) (m : List (K × ChangeKind))
      → no_pending m ≡ false
      → Holds b m
      → is_empty b ≡ false
  Holds-nonempty b [] n h = absurd (ground arith)
  Holds-nonempty b ((path, kind) ∷ rest) n h = elim (Bool-cases (is_empty b)) [
    | inl t ↦
        let first : find path ((path, kind) ∷ rest) ≡ some kind = rw (beq_refl path) refl in
        absurd (entry_view-ne kind (sym (rw first at (h.views path)) ∙ not_empty b path t))
    | inr t ↦ t
  ]

  is_ready-quiet :
      (now last : ℕ) (d : EventDebouncer K)
      → d.last_event ≡ some last
      → last + d.debounce_ms ≤ now
      → is_ready now d ≡ true
  unfolding is_ready
  is_ready-quiet now last d e q = ground arith

  -- Let the pending changes be a map, with no path twice, that is drained in any order. Once the tree
  -- has been quiet for the debounce window, the next round of the loop hands out a batch of what is
  -- pending, if anything is: each path is in exactly the list that its pending kind says, and the
  -- debouncer is empty again.
  pub tick_quiet :
      (drain : List (K × ChangeKind) → List (K × ChangeKind)) (now last : ℕ) (d : EventDebouncer K)
      → Drains drain
      → distinct (keys d.pending) ≡ true
      → has_pending d ≡ true
      → d.last_event ≡ some last
      → last + d.debounce_ms ≤ now
      → (b : ChangeBatch K) × ((tick drain now d) ≡ (some b, emptied d)) × Holds b d.pending
  unfolding tick has_pending
  tick_quiet drain now last d law h p e q =
      let b = batch_of new (drain d.pending) in
      let holds = Holds-batch_of drain law d.pending h in
      let some_pending : no_pending d.pending ≡ false = ground arith in
      let full = Holds-nonempty b d.pending some_pending holds in
      let ready = is_ready-quiet now last d e q in (b, rw (some_pending, ready, full) refl, holds)

  -- Before that, while changes keep coming, a round hands out nothing and changes nothing.
  pub tick_busy :
      (drain : List (K × ChangeKind) → List (K × ChangeKind)) (now last : ℕ) (d : EventDebouncer K)
      → d.last_event ≡ some last
      → now < last + d.debounce_ms
      → last ≤ now
      → tick drain now d ≡ (none, d)
  unfolding tick is_ready
  tick_busy drain now last d e q l = ground arith
