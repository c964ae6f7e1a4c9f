-- ===== src/Query/Planner/Branches.antt =====
-- What the plans of src/query/planner.rs for alternatives and filters find when
-- src/query/executor.rs executes them.
use fxi.Base.{
  ℕ, ◌≡◌, refl, arith, Bool, true, false, ◌||◌, ◌&&◌, not, Option, none, some, if◌then◌else◌,
  Bool-cases, inl, inr,
}
use fxi.Query.Text.{Std}
use fxi.Query.Sets.{Sets}
use fxi.Query.Syntax.{QueryNode, Nodes, or_node, nil, cons, Query, QueryFilters}
use fxi.Query.Plan.{
  VerificationStep, FilterStep, plan, Steps, snil, scons, Plans, pnil, pcons, extend,
}
use fxi.Query.Planner.{
  Tokenizer, plan_node, plan_any, push_plan, plan_query, has, has_any, union_steps, filter_steps,
}
use fxi.Query.Executor.{Reader, execute_plan}
use fxi.Query.Executor.Meaning.{narrows, in_plan, in_steps, in_any, excluded, any_plan}
use fxi.Query.Executor.Narrowing.{execute_plan-in_plan}

abbrev pub unset : {A : Type 0} → Option A → Bool
unset none = true
unset (some a) = false

-- A query that names no field of a file.
abbrev pub filters_nothing : QueryFilters → Bool
filters_nothing f =
    (unset f.path && (unset f.filename && (unset f.ext && unset f.lang)))
    && ((unset f.size_min && unset f.size_max) && (unset f.mtime_min && unset f.mtime_max))
    && (unset f.line_start && unset f.line_end)

-- The tests that a query asks for, each under the name it has in a plan.
abbrev pub asked : QueryFilters → FilterStep
asked f = record {
  path_glob = f.path;
  filename = f.filename;
  extension = f.ext;
  language = f.lang;
  size_min = f.size_min;
  size_max = f.size_max;
  mtime_min = f.mtime_min;
  mtime_max = f.mtime_max;
  line_start = f.line_start;
  line_end = f.line_end;
}

has-unset : {A : Type 0} → (o : Option A) → has o ≡ not (unset o)
has-unset none = refl
has-unset (some a) = refl

has_any-filters_nothing : (f : QueryFilters) → has_any f ≡ not (filters_nothing f)
unfolding has_any
has_any-filters_nothing f = ground (
  arith,
  has-unset f.path,
  has-unset f.filename,
  has-unset f.ext,
  has-unset f.lang,
  has-unset f.size_min,
  has-unset f.size_max,
  has-unset f.mtime_min,
  has-unset f.mtime_max,
  has-unset f.line_start,
  has-unset f.line_end,
)

abbrev pub has_steps : {F : Type 0} → Steps F → Bool
has_steps snil = false
has_steps (scons s ss) = true

module _ (std : Std) (tok : Tokenizer) (case_insensitive : Bool) (sets : Sets)
    (reader : Reader (Std.F32 std) sets) where
  open std use {F32}
  open sets use {contains}
  open reader use {is_valid, meets}

  -- The documents that the narrowing of a node finds.
  abbrev pub found : QueryNode F32 → ℕ → Bool
  found node d =
      contains
        (execute_plan F32 sets reader (plan (plan_node std tok case_insensitive node).0 none)) d

  abbrev pub narrowed : QueryNode F32 → Bool
  narrowed node = has_steps (plan_node std tok case_insensitive node).0

  abbrev pub any_narrowed : Nodes F32 → Bool
  any_narrowed nil = false
  any_narrowed (cons n ns) = narrowed n || any_narrowed ns

  abbrev pub found_by_any : Nodes F32 → ℕ → Bool
  found_by_any nil d = false
  found_by_any (cons n ns) d = narrowed n && found n d || found_by_any ns d

  in_any-push_plan :
      (steps : Steps F32) (v : Option (VerificationStep F32)) (plans : Plans F32) (d : ℕ)
      → in_any F32 sets reader (push_plan std tok case_insensitive steps v plans) d ≡ (
          has_steps steps && in_plan F32 sets reader (plan steps none) d
          || in_any F32 sets reader plans d)
  unfolding in_plan
  in_any-push_plan snil v plans d = refl
  in_any-push_plan (scons s ss) v plans d = refl

  plan_any-cons :
      (n : QueryNode F32) (ns : Nodes F32)
      → (plan_any std tok case_insensitive (cons n ns)).0
        ≡ push_plan std tok case_insensitive
            (plan_node std tok case_insensitive n).0
            (plan_node std tok case_insensitive n).1
            (plan_any std tok case_insensitive ns).0
  unfolding plan_node
  plan_any-cons n ns = refl

  plan_any-nil : (plan_any std tok case_insensitive nil).0 ≡ pnil
  unfolding plan_node
  plan_any-nil = refl

  plan_node-or_node :
      (nodes : Nodes F32)
      → (plan_node std tok case_insensitive (or_node nodes)).0
        ≡ union_steps std tok case_insensitive (plan_any std tok case_insensitive nodes).0
  unfolding plan_node
  plan_node-or_node nodes = refl

  in_any-plan_any :
      (nodes : Nodes F32) (d : ℕ)
      → in_any F32 sets reader (plan_any std tok case_insensitive nodes).0 d ≡ found_by_any nodes d
  unfolding in_plan
  in_any-plan_any nil d = rw plan_any-nil refl
  in_any-plan_any (cons n ns) d =
      let steps = (plan_node std tok case_insensitive n).0 in
      let v = (plan_node std tok case_insensitive n).1 in
      let ih = in_any-plan_any ns d in
      let here = execute_plan-in_plan F32 sets reader (plan steps none) d in
      let more = in_any-push_plan steps v (plan_any std tok case_insensitive ns).0 d in
      rw (plan_any-cons n ns) (ground arith)

  any_plan-push_plan :
      (steps : Steps F32) (v : Option (VerificationStep F32)) (plans : Plans F32)
      → any_plan F32 sets reader (push_plan std tok case_insensitive steps v plans)
        ≡ (has_steps steps || any_plan F32 sets reader plans)
  any_plan-push_plan snil v plans = refl
  any_plan-push_plan (scons s ss) v plans = refl

  any_plan-plan_any :
      (nodes : Nodes F32)
      → any_plan F32 sets reader (plan_any std tok case_insensitive nodes).0 ≡ any_narrowed nodes
  any_plan-plan_any nil = rw plan_any-nil refl
  any_plan-plan_any (cons n ns) =
      let steps = (plan_node std tok case_insensitive n).0 in
      let v = (plan_node std tok case_insensitive n).1 in
      let ih = any_plan-plan_any ns in
      let more = any_plan-push_plan steps v (plan_any std tok case_insensitive ns).0 in
      rw (plan_any-cons n ns) (ground arith)

  in_plan-union_steps :
      (plans : Plans F32) (v : Option (VerificationStep F32)) (d : ℕ)
      → in_plan F32 sets reader (plan (union_steps std tok case_insensitive plans) v) d
        ≡ (if any_plan F32 sets reader plans then in_any F32 sets reader plans d else is_valid d)
  unfolding in_plan narrows
  in_plan-union_steps pnil v d = refl
  in_plan-union_steps (pcons p ps) v d = ground arith

  -- Executing the plan of an alternative finds the documents that some branch with steps finds; a
  -- branch whose plan has no steps adds nothing, unless no branch has any, when every valid
  -- document is found.
  pub execute_plan-or_node :
      (nodes : Nodes F32) (v : Option (VerificationStep F32)) (d : ℕ)
      → contains
          (execute_plan F32 sets reader
            (plan (plan_node std tok case_insensitive (or_node nodes)).0 v))
          d
        ≡ (if any_narrowed nodes then found_by_any nodes d else is_valid d)
  execute_plan-or_node nodes v d =
      let plans = (plan_any std tok case_insensitive nodes).0 in
      let run =
        execute_plan-in_plan F32 sets reader (plan (union_steps std tok case_insensitive plans) v)
          d in
      let meaning = in_plan-union_steps plans v d in
      let some_steps = any_plan-plan_any nodes in
      let branches = in_any-plan_any nodes d in rw (plan_node-or_node nodes) (ground arith)

  narrows-extend :
      (a b : Steps F32)
      → narrows F32 sets reader (extend a b)
        ≡ (narrows F32 sets reader a || narrows F32 sets reader b)
  unfolding extend narrows
  narrows-extend snil b = refl
  narrows-extend (scons s ss) b = let ih = narrows-extend ss b in ground arith

  in_steps-extend :
      (a b : Steps F32) (d : ℕ)
      → in_steps F32 sets reader (extend a b) d
        ≡ (in_steps F32 sets reader a d && in_steps F32 sets reader b d)
  unfolding extend in_plan
  in_steps-extend snil b d = refl
  in_steps-extend (scons s ss) b d = let ih = in_steps-extend ss b d in ground arith

  excluded-extend :
      (a b : Steps F32) (d : ℕ)
      → excluded F32 sets reader (extend a b) d
        ≡ (excluded F32 sets reader a d || excluded F32 sets reader b d)
  unfolding extend in_plan
  excluded-extend snil b d = refl
  excluded-extend (scons s ss) b d = let ih = excluded-extend ss b d in ground arith

  filter_steps_lem :
      (f : QueryFilters) (d : ℕ)
      → (in_steps F32 sets reader (filter_steps std tok case_insensitive f) d
          ≡ (filters_nothing f || is_valid d && meets (asked f) d))
        × (excluded F32 sets reader (filter_steps std tok case_insensitive f) d ≡ false)
  unfolding in_plan
  filter_steps_lem f d =
      let test = has_any-filters_nothing f in
      elim (Bool-cases (has_any f)) [
        | inl e ↦ (ground arith, ground arith)
        | inr e ↦ (ground arith, ground arith)
      ]

  plan_query_def :
      (q : Query F32)
      → plan_query std tok case_insensitive q
        ≡ plan
            (extend
              (plan_node std tok case_insensitive q.root).0
              (filter_steps std tok case_insensitive q.filters))
            (plan_node std tok case_insensitive q.root).1
  unfolding plan_query
  plan_query_def q = refl

  -- If the narrowing of a query's root restricts anything, executing the query's plan finds
  -- exactly the documents that the root's narrowing finds and, unless the query sets none of the ten
  -- fields of its filters, that are valid and meet the filter step with these ten fields.
  pub execute_plan-plan_query :
      (q : Query F32) (d : ℕ)
      → narrows F32 sets reader (plan_node std tok case_insensitive q.root).0 ≡ true
      → contains (execute_plan F32 sets reader (plan_query std tok case_insensitive q)) d
        ≡ (found q.root d && (filters_nothing q.filters || is_valid d && meets (asked q.filters) d))
  unfolding in_plan
  execute_plan-plan_query q d h =
      let steps = (plan_node std tok case_insensitive q.root).0 in
      let v = (plan_node std tok case_insensitive q.root).1 in
      let filters = filter_steps std tok case_insensitive q.filters in
      let run = execute_plan-in_plan F32 sets reader (plan (extend steps filters) v) d in
      let alone = execute_plan-in_plan F32 sets reader (plan steps none) d in
      let restricts = narrows-extend steps filters in
      let all_steps = in_steps-extend steps filters d in
      let all_excluded = excluded-extend steps filters d in
      let tested = filter_steps_lem q.filters d in rw (plan_query_def q) (ground arith)
