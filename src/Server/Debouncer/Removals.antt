-- ===== src/Server/Debouncer/Removals.antt =====
-- Which deletions run_watcher_thread of src/server/daemon_core.rs reports.
use fxi.Base.{
  ℕ, ◌≡◌, refl, arith, Bool, true, false, not, ◌&&◌, Option, none, some, List, [], ◌∷◌, All,
  Bool-cases, inl, inr,
}
use fxi.Base.Keys.{Eq, mem, find, keys, distinct, beq_refl}
use fxi.Server.Changes.{ChangeKind, ChangeBatch, new, is_empty}
use fxi.Server.Debouncer.{
  EventDebouncer, EventKind, Round, combine, combined, no_pending, has_pending, is_ready, batch_of,
  emptied, add_event, add_paths, on_event, tick, flush, add_relative, receive, send,
  run_watcher_thread,
}
use fxi.Server.Debouncer.Effect.{distinct-keys-store, find-add_event}
use fxi.Server.Debouncer.Flushes.{Drains, Holds, Holds-batch_of, entry_view, no_view}

-- Whether an entry puts its path into the deletions of a batch.
abbrev is_removal : Option ChangeKind → Bool
is_removal none = false
is_removal (some ChangeKind.created) = false
is_removal (some ChangeKind.modified) = false
is_removal (some ChangeKind.deleted) = true
is_removal (some ChangeKind.renamed) = true

is_removal-combined :
    (old : Option ChangeKind) (kind : ChangeKind)
    → is_removal old ≡ false
    → is_removal (some kind) ≡ false
    → is_removal (combined old kind) ≡ false
unfolding combine
is_removal-combined none kind h k = k
is_removal-combined (some ChangeKind.created) ChangeKind.created h k = refl
is_removal-combined (some ChangeKind.created) ChangeKind.modified h k = refl
is_removal-combined (some ChangeKind.modified) ChangeKind.created h k = refl
is_removal-combined (some ChangeKind.modified) ChangeKind.modified h k = refl
is_removal-combined (some old) ChangeKind.deleted h k = absurd (ground arith)
is_removal-combined (some old) ChangeKind.renamed h k = absurd (ground arith)
is_removal-combined (some ChangeKind.deleted) kind h k = absurd (ground arith)
is_removal-combined (some ChangeKind.renamed) kind h k = absurd (ground arith)

in_deleted-entry_view :
    (o : Option ChangeKind) → is_removal o ≡ false → (entry_view o no_view).in_deleted ≡ false
in_deleted-entry_view none h = refl
in_deleted-entry_view (some ChangeKind.created) h = refl
in_deleted-entry_view (some ChangeKind.modified) h = refl
in_deleted-entry_view (some ChangeKind.deleted) h = absurd (ground arith)
in_deleted-entry_view (some ChangeKind.renamed) h = absurd (ground arith)

abbrev pub no_files : {P : Type 0} → (P → Bool) → List P → Bool
no_files is_file [] = true
no_files is_file (path ∷ paths) = not (is_file path) && no_files is_file paths

-- When a removal is handled, the paths that it names are no files any more.
abbrev pub gone : {P : Type 0} → Round P → Option (EventKind × List P) → Bool
gone r (some (EventKind.remove, paths)) = no_files r.is_file paths
gone r (some (EventKind.create, paths)) = true
gone r (some (EventKind.modify, paths)) = true
gone r (some (EventKind.other, paths)) = true
gone r none = true

abbrev pub removals_gone : {P : Type 0} → List (Round P) → Bool
removals_gone [] = true
removals_gone (r ∷ rounds) = gone r r.received && removals_gone rounds

module _ {K : Type 0} ⦃e : Eq K⦄ where
  -- The pending changes are a map and hold no deletion.
  record Keeps (d : EventDebouncer K) : Type 0 where
    distinct_keys : distinct (keys d.pending) ≡ true
    kinds : (j : K) → is_removal (find j d.pending) ≡ false

  add_event-Keeps :
      (now : ℕ) (path : K) (kind : ChangeKind) (d : EventDebouncer K)
      → is_removal (some kind) ≡ false
      → Keeps d
      → Keeps (add_event now path kind d)
  unfolding add_event
  add_event-Keeps now path kind d k h = record {
    distinct_keys =
        distinct-keys-store path (combined (find path d.pending) kind) d.pending h.distinct_keys;
    kinds = λ j.
        let found = find-add_event d now path kind j in
        let fine = is_removal-combined (find j d.pending) kind (h.kinds j) k in
        let before = h.kinds j in ground arith;
  }

  no_deletion :
      (b : ChangeBatch K) (m : List (K × ChangeKind))
      → ((j : K) → is_removal (find j m) ≡ false)
      → Holds b m
      → b.deleted ≡ []
  no_deletion b m h holds = none_of b.deleted (λ j.
      let seen = holds.views j in
      let clear = in_deleted-entry_view (find j m) (h j) in ground arith)
    where
      none_of : (xs : List K) → ((j : K) → mem j xs ≡ false) → xs ≡ []
      none_of [] all = refl
      none_of (x ∷ xs) all = let self = beq_refl x in let not_in = all x in absurd (ground arith)

  abbrev NoDeletion : Option (ChangeBatch K) → Type 0
  NoDeletion o = (b : ChangeBatch K) → o ≡ some b → b.deleted ≡ []

  emptied-Keeps : (d : EventDebouncer K) → Keeps (emptied d)
  unfolding emptied
  emptied-Keeps d = record { distinct_keys = refl; kinds = λ j. refl }

  tick-Keeps :
      (drain : List (K × ChangeKind) → List (K × ChangeKind)) (now : ℕ) (d : EventDebouncer K)
      → Drains drain
      → Keeps d
      → NoDeletion (tick drain now d).0 × Keeps (tick drain now d).1
  unfolding tick flush
  tick-Keeps drain now d law h =
      let batch = batch_of new (drain d.pending) in
      let clear =
        no_deletion batch d.pending h.kinds (Holds-batch_of drain law d.pending h.distinct_keys) in
      elim (Bool-cases (has_pending d && is_ready now d)) [
        | inr wait ↦ rw wait (λ b same. absurd (ground arith), h)
        | inl go ↦ elim (Bool-cases (no_pending d.pending)) [
          | inl nothing ↦ rw (go, nothing) (λ b same. absurd (ground arith), h)
          | inr full ↦ elim (Bool-cases (is_empty batch)) [
            | inl void ↦ rw (go, full, void) (λ b same. absurd (ground arith), emptied-Keeps d)
            | inr filled ↦ rw (go, full, filled) (λ b same. ground arith, emptied-Keeps d)
          ]
        ]
      ]

module _ {P K : Type 0} ⦃e : Eq K⦄ (strip_prefix : P → Option K) (should_ignore : K → Bool) where
  add_paths-Keeps :
      (is_file : P → Bool) (now : ℕ) (kind : ChangeKind) (paths : List P) (d : EventDebouncer K)
      → is_removal (some kind) ≡ false
      → Keeps d
      → Keeps (add_paths is_file strip_prefix should_ignore now kind paths d)
  unfolding add_paths
  add_paths-Keeps is_file now kind [] d k h = h
  add_paths-Keeps is_file now kind (path ∷ paths) d k h =
      add_paths-Keeps is_file now kind paths _ k (elim (Bool-cases (is_file path)) [
        | inr other ↦ rw other h
        | inl file ↦ rw file (relative (strip_prefix path))
      ])
    where
      relative :
          (o : Option K) → Keeps (add_relative is_file strip_prefix should_ignore now kind o d)
      relative none = h
      relative (some rel) = elim (Bool-cases (should_ignore rel)) [
        | inl skip ↦ rw skip h
        | inr keep ↦ rw keep (add_event-Keeps now rel kind d k h)
      ]

  add_paths-no_files :
      (is_file : P → Bool) (now : ℕ) (kind : ChangeKind) (paths : List P) (d : EventDebouncer K)
      → no_files is_file paths ≡ true
      → add_paths is_file strip_prefix should_ignore now kind paths d ≡ d
  unfolding add_paths
  add_paths-no_files is_file now kind [] d h = refl
  add_paths-no_files is_file now kind (path ∷ paths) d h =
      let absent : is_file path ≡ false = ground arith in
      rw absent (add_paths-no_files is_file now kind paths d (ground arith))

  module _ (drain : List (K × ChangeKind) → List (K × ChangeKind)) where
    receive-Keeps :
        (r : Round P) (o : Option (EventKind × List P)) (d : EventDebouncer K)
        → gone r o ≡ true
        → Keeps d
        → Keeps (receive strip_prefix should_ignore drain r o d)
    unfolding on_event
    receive-Keeps r none d g h = h
    receive-Keeps r (some (EventKind.create, paths)) d g h =
        add_paths-Keeps r.is_file r.handled ChangeKind.created paths d refl h
    receive-Keeps r (some (EventKind.modify, paths)) d g h =
        add_paths-Keeps r.is_file r.handled ChangeKind.modified paths d refl h
    receive-Keeps r (some (EventKind.remove, paths)) d g h =
        rw (add_paths-no_files r.is_file r.handled ChangeKind.deleted paths d g) h
    receive-Keeps r (some (EventKind.other, paths)) d g h = h

    send-NoDeletion :
        (o : Option (ChangeBatch K)) (sent : List (ChangeBatch K))
        → NoDeletion o
        → All (λ (b : ChangeBatch K). b.deleted ≡ []) sent
        → All (λ (b : ChangeBatch K). b.deleted ≡ []) (send strip_prefix should_ignore drain o sent)
    send-NoDeletion none sent h all = all
    send-NoDeletion (some b) sent h all = (h b refl, all)

    rounds-NoDeletion :
        (rounds : List (Round P)) (d : EventDebouncer K)
        → Drains drain
        → removals_gone rounds ≡ true
        → Keeps d
        → All
            (λ (b : ChangeBatch K). b.deleted ≡ [])
            (run_watcher_thread strip_prefix should_ignore drain rounds d)
    unfolding run_watcher_thread
    rounds-NoDeletion [] d law g h = tt
    rounds-NoDeletion (r ∷ rounds) d law g h =
        let (first, rest) : (gone r r.received ≡ true) × (removals_gone rounds ≡ true) =
          (ground arith, ground arith) in
        let next = receive strip_prefix should_ignore drain r r.received d in
        let (sent, kept) =
          tick-Keeps drain r.checked next law (receive-Keeps r r.received d first h) in
        send-NoDeletion (tick drain r.checked next).0 _ sent
          (rounds-NoDeletion rounds (tick drain r.checked next).1 law rest kept)

    -- Let the watcher start with nothing pending, and let no path of a removal be a file any more when
    -- the removal is handled. Then no batch that it sends, over any rounds of events and timeouts,
    -- names a deleted file, however the map of pending changes is drained.
    pub run_watcher_thread-no_deletions :
        (rounds : List (Round P)) (d : EventDebouncer K)
        → Drains drain
        → removals_gone rounds ≡ true
        → d.pending ≡ []
        → All
            (λ (b : ChangeBatch K). b.deleted ≡ [])
            (run_watcher_thread strip_prefix should_ignore drain rounds d)
    run_watcher_thread-no_deletions rounds d law g start =
        rounds-NoDeletion rounds d law g
          (record { distinct_keys = rw start refl; kinds = λ j. rw start refl })
