-- ===== src/Server/Debouncer.antt =====
-- src/server/debouncer.rs: changes to files, collected until the tree is quiet; and the events of
-- run_watcher_thread of src/server/daemon_core.rs that reach it. Times are in milliseconds.
pub mod Effect
pub mod Flushes
pub mod Removals
use fxi.Base.{
  ℕ, ◌-◌, Bool, true, false, not, ◌&&◌, Option, none, some, List, [], ◌∷◌, leb, if◌then◌else◌,
}
use fxi.Base.Keys.{Eq, find, put, erase}
use fxi.Server.Changes.{ChangeKind, FileChange, ChangeBatch, new, is_empty, add}

pub record EventDebouncer (K : Type 0) : Type 0 where
  pub debounce_ms : ℕ
  pub pending : List (K × ChangeKind)
  pub last_event : Option ℕ

-- The kind that is kept after another change to the same path; `none` removes the path.
unfoldable pub combine : ChangeKind → ChangeKind → Option ChangeKind
combine ChangeKind.created ChangeKind.modified = some ChangeKind.created
combine ChangeKind.created ChangeKind.deleted = none
combine ChangeKind.modified ChangeKind.deleted = some ChangeKind.deleted
combine ChangeKind.deleted ChangeKind.created = some ChangeKind.modified
combine ChangeKind.deleted ChangeKind.modified = some ChangeKind.modified
combine old ChangeKind.renamed = some ChangeKind.deleted
combine ChangeKind.renamed kind = some kind
combine ChangeKind.created ChangeKind.created = some ChangeKind.created
combine ChangeKind.modified ChangeKind.created = some ChangeKind.created
combine ChangeKind.modified ChangeKind.modified = some ChangeKind.modified
combine ChangeKind.deleted ChangeKind.deleted = some ChangeKind.deleted

-- What stands for a path after a change, from what stood for it before.
abbrev pub combined : Option ChangeKind → ChangeKind → Option ChangeKind
combined none kind = some kind
combined (some old) kind = combine old kind

module _ {K : Type 0} ⦃e : Eq K⦄ where
  abbrev pub store : K → Option ChangeKind → List (K × ChangeKind) → List (K × ChangeKind)
  store path none m = erase path m
  store path (some kind) m = put path kind m

  unfoldable pub add_event : (now : ℕ) → K → ChangeKind → EventDebouncer K → EventDebouncer K
  add_event now path kind d = record d {
    pending = store path (combined (find path d.pending) kind) d.pending;
    last_event = some now;
  }

  unfoldable pub is_ready : (now : ℕ) → EventDebouncer K → Bool
  is_ready now d = elim d.last_event [ none ↦ false | some last ↦ leb d.debounce_ms (now - last) ]

  abbrev pub no_pending : List (K × ChangeKind) → Bool
  no_pending [] = true
  no_pending (p ∷ ps) = false

  unfoldable pub has_pending : EventDebouncer K → Bool
  has_pending d = not (no_pending d.pending)

  unfoldable pub batch_of : ChangeBatch K → List (K × ChangeKind) → ChangeBatch K
  unfolding add
  batch_of batch [] = batch
  batch_of batch ((path, kind) ∷ rest) =
      batch_of (add batch (record { path = path; kind = kind })) rest

  unfoldable pub emptied : EventDebouncer K → EventDebouncer K
  emptied d = record d { pending = []; last_event = none }

  -- `drain` is the order, which a hash map does not fix, in which the entries are drained.
  unfoldable pub flush :
      (drain : List (K × ChangeKind) → List (K × ChangeKind))
      → EventDebouncer K
      → Option (ChangeBatch K) × EventDebouncer K
  unfolding batch_of emptied is_empty
  flush drain d =
      let batch = batch_of new (drain d.pending) in
      if no_pending d.pending
      then (none, d)
      else (if is_empty batch then none else some batch, emptied d)

  -- The end of each round of the loop.
  unfoldable pub tick :
      (drain : List (K × ChangeKind) → List (K × ChangeKind))
      → ℕ
      → EventDebouncer K
      → Option (ChangeBatch K) × EventDebouncer K
  unfolding flush is_ready has_pending
  tick drain now d = if has_pending d && is_ready now d then flush drain d else (none, d)

-- An event of the `notify` package.
pub data EventKind : Type 0 where
  create modify remove other : EventKind

abbrev pub kind_of : EventKind → Option ChangeKind
kind_of EventKind.create = some ChangeKind.created
kind_of EventKind.modify = some ChangeKind.modified
kind_of EventKind.remove = some ChangeKind.deleted
kind_of EventKind.other = none

-- `is_file` is the state of the disk when the event is handled; `strip_prefix` gives the path below
-- the root; `should_ignore` stands for the rules of should_ignore_path.
module _ {P K : Type 0} ⦃e : Eq K⦄ (is_file : P → Bool) (strip_prefix : P → Option K)
    (should_ignore : K → Bool) where
  abbrev pub add_relative : ℕ → ChangeKind → Option K → EventDebouncer K → EventDebouncer K
  add_relative now kind none d = d
  add_relative now kind (some path) d = if should_ignore path then d else add_event now path kind d

  unfoldable pub add_paths : ℕ → ChangeKind → List P → EventDebouncer K → EventDebouncer K
  unfolding add_event
  add_paths now kind [] d = d
  add_paths now kind (path ∷ paths) d =
      add_paths now kind paths
        (if is_file path then add_relative now kind (strip_prefix path) d else d)

  unfoldable pub on_event : ℕ → EventKind → List P → EventDebouncer K → EventDebouncer K
  unfolding add_paths
  on_event now event paths d = elim (kind_of event) [
    | none ↦ d
    | some kind ↦ add_paths now kind paths d
  ]

-- A round of the loop: the event that arrived within the timeout, if one did, which paths are files
-- when it is handled, and the times at which it is handled and the window is checked.
pub record Round (P : Type 0) : Type 0 where
  pub received : Option (EventKind × List P)
  pub is_file : P → Bool
  pub handled : ℕ
  pub checked : ℕ

module _ {P K : Type 0} ⦃e : Eq K⦄ (strip_prefix : P → Option K) (should_ignore : K → Bool)
    (drain : List (K × ChangeKind) → List (K × ChangeKind)) where
  abbrev pub receive : Round P → Option (EventKind × List P) → EventDebouncer K → EventDebouncer K
  receive r none d = d
  receive r (some (event, paths)) d =
      on_event r.is_file strip_prefix should_ignore r.handled event paths d

  abbrev pub send : Option (ChangeBatch K) → List (ChangeBatch K) → List (ChangeBatch K)
  send none sent = sent
  send (some batch) sent = batch ∷ sent

  -- The batches that are sent over some rounds of the loop.
  unfoldable pub run_watcher_thread : List (Round P) → EventDebouncer K → List (ChangeBatch K)
  unfolding on_event tick
  run_watcher_thread [] d = []
  run_watcher_thread (r ∷ rounds) d =
      let after = tick drain r.checked (receive r r.received d) in
      send after.0 (run_watcher_thread rounds after.1)
