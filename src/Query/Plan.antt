-- ===== src/Query/Plan.antt =====
-- src/query/planner.rs: query plans.
use fxi.Base.{ℕ, Bool, Option, List}
use fxi.Query.Text.{Str}

mutual
  pub data VerificationStep (F : Type 0) : Type 0 where
    literal : Str → VerificationStep F
    boosted_literal : Str → F → VerificationStep F
    phrase : Str → (case_insensitive : Bool) → VerificationStep F
    regex : Str → VerificationStep F
    near : List Str → ℕ → VerificationStep F
    and_step : Verifications F → VerificationStep F
    or_step : Verifications F → VerificationStep F
    not_step : VerificationStep F → VerificationStep F

  -- Vec<VerificationStep>
  pub data Verifications (F : Type 0) : Type 0 where
    vnil : Verifications F
    vcons : VerificationStep F → Verifications F → Verifications F

pub record FilterStep : Type 0 where
  pub path_glob : Option Str
  pub filename : Option Str
  pub extension : Option Str
  pub language : Option Str
  pub size_min : Option ℕ
  pub size_max : Option ℕ
  pub mtime_min : Option ℕ
  pub mtime_max : Option ℕ
  pub line_start : Option ℕ
  pub line_end : Option ℕ

mutual
  pub data QueryPlan (F : Type 0) : Type 0 where
    plan : Steps F → Option (VerificationStep F) → QueryPlan F

  pub data PlanStep (F : Type 0) : Type 0 where
    trigram_intersect : List ℕ → PlanStep F
    token_lookup : Str → PlanStep F
    union : Plans F → PlanStep F
    token_or_trigram : (token : Str) (sub_tokens : List Str) (trigrams : List ℕ) → PlanStep F
    intersect : Plans F → PlanStep F
    exclude : QueryPlan F → PlanStep F
    filter : FilterStep → PlanStep F
    positional_phrase : List (Str × ℕ) → PlanStep F

  -- Vec<PlanStep>
  pub data Steps (F : Type 0) : Type 0 where
    snil : Steps F
    scons : PlanStep F → Steps F → Steps F

  -- Vec<QueryPlan>
  pub data Plans (F : Type 0) : Type 0 where
    pnil : Plans F
    pcons : QueryPlan F → Plans F → Plans F

-- all_steps.extend(steps)
unfoldable pub extend : {F : Type 0} → Steps F → Steps F → Steps F
extend snil more = more
extend (scons s rest) more = scons s (extend rest more)

abbrev pub single : {F : Type 0} → PlanStep F → Steps F
single s = scons s snil
