-- ===== src/Query/Executor/Narrowing.antt =====
-- The set that execute_plan of src/query/executor.rs computes is the one that the plan means.
use fxi.Base.{
  ℕ, ◌≡◌, refl, arith, Bool, true, false, ◌||◌, ◌&&◌, not, Option, none, some, List, [],
  if◌then◌else◌, Bool-cases, inl, inr,
}
use fxi.Query.Text.{Str}
use fxi.Query.Sets.{Sets}
use fxi.Query.Plan.{
  QueryPlan, plan, PlanStep, trigram_intersect, token_lookup, union, token_or_trigram, intersect,
  exclude, filter, positional_phrase, Steps, snil, scons, Plans, pnil, pcons,
}
use fxi.Query.Executor.{
  is_some, among, Reader, narrow, trigram_docs, substring_docs, without_stop_grams, Excluded, State,
  resolve_exclusions, exhausted, verification_of, execute_plan, execute_steps, execute_step,
  union_docs, intersect_docs,
}
use fxi.Query.Executor.Meaning.{
  usable, any_plan, narrows_step, narrows, in_plan, in_steps, in_step, in_any, in_all, excluded,
  excluded_step,
}
use fxi.Query.Executor.Candidates.{
  among-narrow, among-narrow_if, is_some-narrow, is_some-narrow_if, contains-substring_docs,
  contains-apply_filter, removed, contains-exclude_all, removed-append,
}

module _ (F : Type 0) (sets : Sets) (reader : Reader F sets) where
  open sets use {B, new, contains, or_of, contains-new, contains-or_of, contains-is_empty}
  open reader use {
    get_token_docs, resolve_phrase_positional, is_valid, contains-valid_doc_ids,
    resolve_phrase_positional-is_some, resolve_phrase_positional-among,
  }

  -- The set of a state: its candidates less what its exclusions remove.
  abbrev kept : Option B → List (Excluded F sets reader) → ℕ → Bool
  kept cands es d = among sets cands d && not (removed F sets reader es d)

  contains-resolve_exclusions :
      (cands : Option B) (es : List (Excluded F sets reader)) (d : ℕ)
      → contains (resolve_exclusions F sets reader cands es) d
        ≡ (if is_some cands then kept cands es d else is_valid d)
  contains-resolve_exclusions none es d = contains-valid_doc_ids d
  contains-resolve_exclusions (some c) es d = contains-exclude_all F sets reader c es d

  among-exhausted :
      (cands : Option B) (d : ℕ)
      → exhausted F sets reader cands ≡ true
      → (is_some cands ≡ true) × (among sets cands d ≡ false)
  among-exhausted none d h = ground arith
  among-exhausted (some c) d h = (refl, contains-is_empty c d h)

  among-positional :
      (ts : List (Str × ℕ)) (cands : Option B) (d : ℕ)
      → (among sets cands d && among sets (resolve_phrase_positional ts cands) d)
        ≡ (among sets cands d && among sets (resolve_phrase_positional ts none) d)
  among-positional ts none d = refl
  among-positional ts (some c) d = elim (Bool-cases (contains c d)) [
    | inl h ↦ let same = resolve_phrase_positional-among ts c d h in ground arith
    | inr h ↦ ground arith
  ]

  is_some-positional :
      (ts : List (Str × ℕ)) (cands : Option B)
      → is_some (resolve_phrase_positional ts cands) ≡ is_some (resolve_phrase_positional ts none)
  is_some-positional ts none = refl
  is_some-positional ts (some c) = resolve_phrase_positional-is_some ts c

  -- What one step does to a state.
  abbrev Effect :
      PlanStep F → Option B → List (Excluded F sets reader) → State F sets reader → ℕ → Type 0
  Effect step cands es (cands', es') d =
      (is_some cands' ≡ (is_some cands || narrows_step F sets reader step))
      × (among sets cands' d ≡ (among sets cands d && in_step F sets reader step d))
      × (removed F sets reader es' d
          ≡ (removed F sets reader es d || excluded_step F sets reader step d))

  mutual
    unfolding execute_plan in_plan narrows

    plan_lem :
        (p : QueryPlan F) (d : ℕ)
        → contains (execute_plan F sets reader p) d ≡ in_plan F sets reader p d
    plan_lem (plan steps v) d = let whole = steps_lem steps none [] d in ground arith

    steps_lem :
        (steps : Steps F) (cands : Option B) (es : List (Excluded F sets reader)) (d : ℕ)
        → contains (execute_steps F sets reader steps cands es) d ≡ (
            if is_some cands || narrows F sets reader steps
            then kept cands es d
              && (in_steps F sets reader steps d && not (excluded F sets reader steps d))
            else is_valid d)
    steps_lem snil cands es d = let base = contains-resolve_exclusions cands es d in ground arith
    steps_lem (scons step steps) cands es d =
        let after = execute_step F sets reader step cands es in
        let effect = step_lem step cands es d in
        let base = contains-resolve_exclusions after.0 after.1 d in
        let rest = steps_lem steps after.0 after.1 d in
        elim (Bool-cases (exhausted F sets reader after.0)) [
          | inl h ↦ let gone = among-exhausted after.0 d h in ground arith
          | inr h ↦ ground arith
        ]

    step_lem :
        (step : PlanStep F) (cands : Option B) (es : List (Excluded F sets reader)) (d : ℕ)
        → Effect step cands es (execute_step F sets reader step cands es) d
    step_lem (trigram_intersect ts) cands es d =
        let docs = trigram_docs F sets reader (usable F sets reader ts) in
        (
          is_some-narrow_if F sets reader cands docs,
          among-narrow_if F sets reader cands docs d,
          ground arith,
        )
    step_lem (token_lookup token) cands es d =
        let docs = get_token_docs token in
        (
          ground (arith, is_some-narrow F sets reader cands docs),
          among-narrow F sets reader cands docs d,
          ground arith,
        )
    step_lem (token_or_trigram token subs ts) cands es d =
        let few = without_stop_grams F sets reader ts in
        let docs = substring_docs F sets reader token subs few (get_token_docs token) in
        let found = contains-substring_docs F sets reader token subs few (get_token_docs token) d in
        let some_docs = is_some-narrow F sets reader cands docs in
        let step = among-narrow F sets reader cands docs d in
        (ground arith, ground arith, ground arith)
    step_lem (union plans) cands es d =
        let all = union_lem plans new d in
        let docs = union_docs F sets reader plans new in
        let none_new = contains-new d in
        let some_docs = is_some-narrow F sets reader cands docs in
        let step = among-narrow F sets reader cands docs d in
        (ground arith, ground arith, ground arith)
    step_lem (intersect plans) cands es d =
        let all = intersect_lem plans none d in
        let docs = intersect_docs F sets reader plans none in
        let some_docs = is_some-narrow_if F sets reader cands docs in
        let step = among-narrow_if F sets reader cands docs d in
        (ground arith, ground arith, ground arith)
    step_lem (exclude p) cands es d =
        let sub = plan_lem p d in
        let deferred : Excluded F sets reader =
          (verification_of F sets reader p, execute_plan F sets reader p) in
        let more = removed-append F sets reader es deferred d in
        (ground arith, ground arith, ground arith)
    step_lem (filter f) cands es d =
        (ground arith, contains-apply_filter F sets reader f cands d, ground arith)
    step_lem (positional_phrase ts) cands es d =
        let docs = resolve_phrase_positional ts cands in
        let same = among-positional ts cands d in
        let found = is_some-positional ts cands in
        let some_docs = is_some-narrow_if F sets reader cands docs in
        let step = among-narrow_if F sets reader cands docs d in
        (ground arith, ground arith, ground arith)

    union_lem :
        (plans : Plans F) (docs : B) (d : ℕ)
        → contains (union_docs F sets reader plans docs) d
          ≡ (contains docs d || in_any F sets reader plans d)
    union_lem pnil docs d = ground arith
    union_lem (pcons p plans) docs d =
        let sub = plan_lem p d in
        let step = contains-or_of docs (execute_plan F sets reader p) d in
        let rest = union_lem plans (or_of docs (execute_plan F sets reader p)) d in ground arith

    intersect_lem :
        (plans : Plans F) (docs : Option B) (d : ℕ)
        → (is_some (intersect_docs F sets reader plans docs)
            ≡ (is_some docs || any_plan F sets reader plans))
          × (among sets (intersect_docs F sets reader plans docs) d
              ≡ (among sets docs d && in_all F sets reader plans d))
    intersect_lem pnil docs d = ground arith
    intersect_lem (pcons p plans) docs d =
        let sub = plan_lem p d in
        let step = among-narrow F sets reader docs (execute_plan F sets reader p) d in
        let found = is_some-narrow F sets reader docs (execute_plan F sets reader p) in
        let rest =
          intersect_lem plans (narrow F sets reader docs (execute_plan F sets reader p)) d in
        ground arith

  -- Let valid_doc_ids hold exactly the valid documents, let no file have changed since it was put into
  -- the file cache, and let candidates change neither whether a phrase has an answer nor what this
  -- answer says of the candidates. Then executing a plan from scratch gives exactly the documents
  -- that the plan means, where excluded documents are verified on the content of the disk: the order
  -- of the steps, the early exit on an empty candidate set, the choice of verification through the
  -- cache or on mapped files, and the point at which exclusions are resolved make no difference.
  pub execute_plan-in_plan :
      (p : QueryPlan F) (d : ℕ)
      → contains (execute_plan F sets reader p) d ≡ in_plan F sets reader p d
  execute_plan-in_plan p d = plan_lem p d
