-- ===== src/Server/Debouncer/Effect.antt =====
-- What the debouncer of src/server/debouncer.rs keeps for a path is the net effect of its changes.
use fxi.Base.{
  ℕ, ◌≡◌, refl, arith, Bool, true, false, Option, none, some, List, [], ◌∷◌, if◌then◌else◌, ◌∙◌, ap,
  Bool-cases, Option-cases, inl, inr,
}
use fxi.Base.Keys.{
  Eq, find, keys, distinct, find-put, find-erase, distinct-keys-put, distinct-keys-erase,
}
use fxi.Server.Changes.{ChangeKind}
use fxi.Server.Debouncer.{EventDebouncer, combine, combined, store, add_event}

-- A change as it befalls a file that exists or not; a file is created where there is none, and
-- modified or deleted where there is one.
abbrev pub follow : Bool → ChangeKind → Option Bool
follow false ChangeKind.created = some true
follow true ChangeKind.modified = some true
follow true ChangeKind.deleted = some false
follow exists kind = none

abbrev pub follow_all : Bool → List ChangeKind → Option Bool
follow_all exists [] = some exists
follow_all exists (kind ∷ kinds) = elim (follow exists kind) [
  | none ↦ none
  | some exists' ↦ follow_all exists' kinds
]

-- What has to be done for a file that existed at first, or not, and that exists at last, or not.
abbrev pub net : (first last : Bool) → Option ChangeKind
net false false = none
net false true = some ChangeKind.created
net true false = some ChangeKind.deleted
net true true = some ChangeKind.modified

abbrev pub combine_all : Option ChangeKind → List ChangeKind → Option ChangeKind
combine_all state [] = state
combine_all state (kind ∷ kinds) = combine_all (combined state kind) kinds

combined-net :
    (first now : Bool) (kind : ChangeKind) (next : Bool)
    → follow now kind ≡ some next
    → combined (net first now) kind ≡ net first next
unfolding combine
combined-net first now kind next h = ground arith

combine_all-net_from :
    (first now last : Bool) (kinds : List ChangeKind)
    → follow_all now kinds ≡ some last
    → combine_all (net first now) kinds ≡ net first last
combine_all-net_from first now last [] h = ground arith
combine_all-net_from first now last (kind ∷ kinds) h = elim (Option-cases (follow now kind)) [
  | inl e ↦ absurd (ground arith)
  | inr (next, e) ↦
      rw (combined-net first now kind next e)
        (combine_all-net_from first next last kinds (rw (e, follow_all) at (h)))
]

first_change :
    (first : Bool) (kind : ChangeKind) (next : Bool)
    → follow first kind ≡ some next
    → some kind ≡ net first next
first_change first kind next h = ground arith

combine_all-net :
    (first last : Bool) (kind : ChangeKind) (kinds : List ChangeKind)
    → follow_all first (kind ∷ kinds) ≡ some last
    → combine_all none (kind ∷ kinds) ≡ net first last
combine_all-net first last kind kinds h = elim (Option-cases (follow first kind)) [
  | inl e ↦ absurd (ground arith)
  | inr (next, e) ↦
      rw (first_change first kind next e)
        (combine_all-net_from first next last kinds (rw (e, follow_all) at (h)))
]

-- A change at a time.
pub record Event (K : Type 0) : Type 0 where
  pub now : ℕ
  pub path : K
  pub kind : ChangeKind

module _ {K : Type 0} ⦃e : Eq K⦄ where
  unfoldable pub add_events : EventDebouncer K → List (Event K) → EventDebouncer K
  add_events d [] = d
  add_events d (event ∷ events) = add_events (add_event event.now event.path event.kind d) events

  -- The changes of one path.
  abbrev pub kinds_of : K → List (Event K) → List ChangeKind
  kinds_of j [] = []
  kinds_of j (event ∷ events) =
      if e.beq event.path j then event.kind ∷ kinds_of j events else kinds_of j events

  find-store :
      (p j : K) (o : Option ChangeKind) (m : List (K × ChangeKind))
      → find j (store p o m) ≡ (if e.beq p j then o else find j m)
  find-store p j none m = find-erase p j m
  find-store p j (some kind) m = find-put p j kind m

  pub distinct-keys-store :
      (p : K) (o : Option ChangeKind) (m : List (K × ChangeKind))
      → distinct (keys m) ≡ true
      → distinct (keys (store p o m)) ≡ true
  distinct-keys-store p none m h = distinct-keys-erase p m h
  distinct-keys-store p (some kind) m h = distinct-keys-put p kind m h

  pub find-add_event :
      (d : EventDebouncer K) (now : ℕ) (p : K) (kind : ChangeKind) (j : K)
      → find j (add_event now p kind d).pending
        ≡ (if e.beq p j then combined (find j d.pending) kind else find j d.pending)
  unfolding add_event
  find-add_event d now p kind j =
      ground (arith, find-store p j (combined (find p d.pending) kind) d.pending, e.beq_iff p j)

  pub find-add_events :
      (d : EventDebouncer K) (events : List (Event K)) (j : K)
      → find j (add_events d events).pending ≡ combine_all (find j d.pending) (kinds_of j events)
  unfolding add_events
  find-add_events d [] j = refl
  find-add_events d (event ∷ events) j =
      let d' = add_event event.now event.path event.kind d in
      let step = find-add_event d event.now event.path event.kind j in
      let rest = find-add_events d' events j in
      let settle = λ (o : Option ChangeKind). combine_all o (kinds_of j events) in
      elim (Bool-cases (e.beq event.path j)) [
        | inl t ↦ rw t (rest ∙ ap settle (rw t at (step)))
        | inr t ↦ rw t (rest ∙ ap settle (rw t at (step)))
      ]

  pub distinct-keys-add_events :
      (d : EventDebouncer K) (events : List (Event K))
      → distinct (keys d.pending) ≡ true
      → distinct (keys (add_events d events).pending) ≡ true
  unfolding add_events add_event
  distinct-keys-add_events d [] h = h
  distinct-keys-add_events d (event ∷ events) h =
      distinct-keys-add_events (add_event event.now event.path event.kind d) events (
        distinct-keys-store event.path (combined (find event.path d.pending) event.kind) d.pending
          h)

  -- If the changes of a path, at least one, are those of a file that existed at first or not, then
  -- a debouncer that held nothing for the path holds what has to be done in the end: nothing for a
  -- file that came and went, and otherwise that the file was created, deleted or modified.
  -- Changes of other paths and the times do not matter.
  pub find-net :
      (d : EventDebouncer K) (events : List (Event K)) (j : K) (first last : Bool)
      (kind : ChangeKind) (kinds : List ChangeKind)
      → find j d.pending ≡ none
      → kinds_of j events ≡ kind ∷ kinds
      → follow_all first (kind ∷ kinds) ≡ some last
      → find j (add_events d events).pending ≡ net first last
  find-net d events j first last kind kinds h e f =
      find-add_events d events j ∙ rw (h, e) (combine_all-net first last kind kinds f)
