-- ===== src/Server/Runs.antt =====
-- Runs of the batches and the debouncer of src/server, and their theorems at concrete inputs.
use fxi.Base.{ℕ, ◌≡◌, refl, arith, true, false, none, some, List, [], ◌∷◌, ◌==◌, All}
use fxi.Base.Keys.{nat_eq, find}
use fxi.Server.Changes.{ChangeKind, FileChange, ChangeBatch, new, is_empty, add, merge}
use fxi.Server.Changes.Mirrors.{IsConsistent, new-IsConsistent}
use fxi.Server.Changes.Batches.{
  view, change_views, change_view_if, add_each, add_each-IsConsistent, merge-IsConsistent,
}
use fxi.Server.Debouncer.{
  EventDebouncer, EventKind, Round, add_event, add_paths, batch_of, has_pending, is_ready, flush,
  emptied, tick, on_event, run_watcher_thread,
}
use fxi.Server.Debouncer.Effect.{Event, add_events, net, find-net}
use fxi.Server.Debouncer.Flushes.{Holds, tick_quiet}
use fxi.Server.Debouncer.Removals.{run_watcher_thread-no_deletions}

abbrev on : ChangeKind → ℕ → FileChange ℕ
on kind path = record { path = path; kind = kind }

-- A new file that is written to, and another file that is replaced.
abbrev some_changes : List (FileChange ℕ)
some_changes =
    on ChangeKind.created 3
    ∷ on ChangeKind.modified 3
    ∷ on ChangeKind.deleted 4
    ∷ on ChangeKind.created 4
    ∷ []

add_each_run : add_each new some_changes ≡ record {
  created = 3 ∷ 4 ∷ [];
  modified = [];
  deleted = 4 ∷ [];
  created_set = 4 ∷ 3 ∷ [];
  modified_set = [];
  deleted_set = 4 ∷ [];
}
unfolding add_each add
add_each_run = refl

add_each-IsConsistent_example :
    IsConsistent (add_each new some_changes)
    × (view (add_each new some_changes) 4 ≡ change_views 4 (view {K = ℕ} new 4) some_changes)
add_each-IsConsistent_example = add_each-IsConsistent new some_changes 4 new-IsConsistent

abbrev other_batch : ChangeBatch ℕ
other_batch = record {
  created = [];
  modified = 5 ∷ [];
  deleted = 3 ∷ [];
  created_set = [];
  modified_set = 5 ∷ [];
  deleted_set = 3 ∷ [];
}

merge-IsConsistent_example :
    IsConsistent (merge new other_batch)
    × (view (merge new other_batch) 5
        ≡ change_view_if ChangeKind.deleted false (
            change_view_if ChangeKind.modified true
              (change_view_if ChangeKind.created false (view {K = ℕ} new 5))))
merge-IsConsistent_example = merge-IsConsistent new other_batch 5 new-IsConsistent

abbrev quiet : EventDebouncer ℕ
quiet = record { debounce_ms = 500; pending = []; last_event = none }

abbrev at_time : ℕ → ChangeKind → ℕ → Event ℕ
at_time now kind path = record { now = now; path = path; kind = kind }

-- A temporary file, with another file in between.
abbrev some_events : List (Event ℕ)
some_events =
    at_time 10 ChangeKind.created 7
    ∷ at_time 20 ChangeKind.modified 8
    ∷ at_time 30 ChangeKind.modified 7
    ∷ at_time 40 ChangeKind.deleted 7
    ∷ []

find-net_example : find 7 (add_events quiet some_events).pending ≡ net false false
find-net_example =
    find-net quiet some_events 7 false false ChangeKind.created
      (ChangeKind.modified ∷ ChangeKind.deleted ∷ []) refl refl refl

abbrev waiting : EventDebouncer ℕ
waiting = record {
  debounce_ms = 500;
  pending = (3, ChangeKind.created) ∷ (4, ChangeKind.deleted) ∷ [];
  last_event = some 1000;
}

abbrev in_order : List (ℕ × ChangeKind) → List (ℕ × ChangeKind)
in_order m = m

waits : has_pending waiting ≡ true
unfolding has_pending
waits = refl

tick_quiet_example :
    (b : ChangeBatch ℕ) × ((tick in_order 1600 waiting) ≡ (some b, emptied waiting))
    × Holds b waiting.pending
tick_quiet_example =
    tick_quiet in_order 1600 1000 waiting (λ m h. (h, λ j. refl)) refl waits refl (omega arith)

-- A file is created, written to, and removed again before the window is over; another one is removed
-- after a batch was sent.
abbrev some_rounds : List (Round ℕ)
some_rounds =
    record {
      received = some (EventKind.create, 3 ∷ 4 ∷ []);
      is_file = λ p. true;
      handled = 10;
      checked = 11;
    }
    ∷ record {
      received = some (EventKind.remove, 3 ∷ []);
      is_file = λ p. p == 4;
      handled = 20;
      checked = 21;
    }
    ∷ record { received = none; is_file = λ p. p == 4; handled = 520; checked = 520 }
    ∷ record {
      received = some (EventKind.remove, 4 ∷ []);
      is_file = λ p. false;
      handled = 600;
      checked = 601;
    }
    ∷ record { received = none; is_file = λ p. false; handled = 1200; checked = 1200 }
    ∷ []

-- Both removals are lost: the batch names file 3 as created, and nothing follows.
run_watcher_thread_run :
    run_watcher_thread (λ (p : ℕ). some p) (λ (p : ℕ). false) in_order some_rounds quiet
    ≡ record {
      created = 3 ∷ 4 ∷ [];
      modified = [];
      deleted = [];
      created_set = 4 ∷ 3 ∷ [];
      modified_set = [];
      deleted_set = [];
    }
      ∷ []
unfolding run_watcher_thread on_event add_paths add_event tick flush has_pending is_ready batch_of
    emptied is_empty add
run_watcher_thread_run = refl

run_watcher_thread-no_deletions_example :
    All
      (λ (b : ChangeBatch ℕ). b.deleted ≡ [])
      (run_watcher_thread (λ (p : ℕ). some p) (λ (p : ℕ). false) in_order some_rounds quiet)
run_watcher_thread-no_deletions_example =
    run_watcher_thread-no_deletions (λ (p : ℕ). some p) (λ (p : ℕ). false) in_order some_rounds
      quiet (λ m h. (h, λ j. refl)) refl refl
