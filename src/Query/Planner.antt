-- ===== src/Query/Planner.antt =====
-- src/query/planner.rs: the plan of a query.
pub mod Prefix
pub mod Branches
use fxi.Base.{
  ℕ, zero, suc, ◌+◌, ◌≤◌, ◌≡◌, Bool, true, false, not, ◌&&◌, ◌||◌, Option, none, some, List, [],
  ◌∷◌, ◌++◌, leb, ◌==◌, if◌then◌else◌,
}
use fxi.Query.Text.{Str, Std, codes, is_empty, byte_len, strip_prefix}
use fxi.Query.Syntax.{QueryNode, Nodes, QueryFilters, Query}
use fxi.Query.Plan.{
  VerificationStep, Verifications, literal, boosted_literal, phrase, regex, near, and_step, or_step,
  not_step, vnil, vcons, FilterStep, QueryPlan, plan, PlanStep, trigram_intersect, token_lookup,
  union, token_or_trigram, exclude, filter, positional_phrase, Steps, snil, scons, Plans, pnil,
  pcons, extend, single,
}
use fxi.Query.Planner.Prefix.{extract_regex_prefix}

-- What the planner takes from src/utils.
pub record Tokenizer : Type 0 where
  pub query_trigrams : Str → List ℕ
  pub tokenize_query : Str → List Str
  pub tokenize_query_with_positions : Str → List (Str × ℕ)
  -- sort_unstable and dedup on trigrams
  pub sort_dedup : List ℕ → List ℕ

abbrev pub has : {A : Type 0} → Option A → Bool
has none = false
has (some a) = true

unfoldable pub has_any : QueryFilters → Bool
has_any f =
    has f.path
    || (has f.filename
        || (has f.ext
            || (has f.lang
                || (has f.size_min
                    || (has f.size_max
                        || (has f.mtime_min
                            || (has f.mtime_max || (has f.line_start || has f.line_end))))))))

module _ (std : Std) (tok : Tokenizer) (case_insensitive : Bool) where
  open std use {F32, is_whitespace, to_lowercase, is_alphanumeric}
  open tok use {query_trigrams, tokenize_query, tokenize_query_with_positions, sort_dedup}

  abbrev has_space : Str → Bool
  has_space [] = false
  has_space (c ∷ s) = is_whitespace c || has_space s

  -- text.split_whitespace(): the words between spaces, none of them empty.
  abbrev join_word : Bool → ℕ → List Str → List Str
  join_word new c [] = (c ∷ []) ∷ []
  join_word true c (w ∷ ws) = (c ∷ []) ∷ w ∷ ws
  join_word false c (w ∷ ws) = (c ∷ w) ∷ ws

  abbrev at_space : Str → Bool
  at_space [] = true
  at_space (c ∷ s) = is_whitespace c

  split_whitespace : Str → List Str
  split_whitespace [] = []
  split_whitespace (c ∷ s) =
      let words = split_whitespace s in
      if is_whitespace c then words else join_word (at_space s) c words

  -- .filter(|t| t.len() >= 2).map(to_lowercase).map(TokenLookup)
  unfoldable pub token_lookups : List Str → Steps F32
  token_lookups [] = snil
  token_lookups (t ∷ ts) =
      let rest = token_lookups ts in
      if leb 2 (byte_len t) then scons (token_lookup (to_lowercase t)) rest else rest

  -- The narrowing of Literal and BoostedLiteral, which is the same text twice.
  abbrev word_steps : Str → List ℕ → Steps F32
  word_steps text [] = single (token_lookup (to_lowercase text))
  word_steps text (t ∷ ts) =
      single (token_or_trigram (to_lowercase text) (tokenize_query text) (t ∷ ts))

  abbrev words_steps : Str → List ℕ → Steps F32
  words_steps text [] = token_lookups (split_whitespace text)
  words_steps text (t ∷ ts) = single (trigram_intersect (t ∷ ts))

  unfoldable pub literal_steps : Str → Steps F32
  unfolding token_lookups split_whitespace
  literal_steps text =
      if not (has_space text) && leb 2 (byte_len text)
      then word_steps text (query_trigrams text)
      else words_steps text (if case_insensitive then [] else query_trigrams text)

  abbrev concat_trigrams : List Str → List ℕ
  concat_trigrams [] = []
  concat_trigrams (t ∷ ts) = query_trigrams t ++ concat_trigrams ts

  abbrev near_of : List Str → List ℕ → Steps F32
  near_of terms [] = token_lookups terms
  near_of terms (t ∷ ts) = single (trigram_intersect (t ∷ ts))

  unfoldable pub near_steps : List Str → Steps F32
  unfolding token_lookups
  near_steps terms =
      near_of terms (if case_insensitive then [] else sort_dedup (concat_trigrams terms))

  abbrev positional : List (Str × ℕ) → Steps F32
  positional (a ∷ b ∷ ts) = single (positional_phrase (a ∷ b ∷ ts))
  positional ts = snil

  abbrev ci_word : Str → Str → List ℕ → Steps F32
  ci_word text token [] = single (token_lookup token)
  ci_word text token (t ∷ ts) = single (token_or_trigram token (tokenize_query text) (t ∷ ts))

  abbrev ci_phrase : Str → List (Str × ℕ) → Steps F32
  ci_phrase text [] = snil
  ci_phrase text ((token, pos) ∷ []) = ci_word text token (query_trigrams text)
  ci_phrase text (a ∷ b ∷ ts) = single (positional_phrase (a ∷ b ∷ ts))

  abbrev trigram_steps : List ℕ → Steps F32
  trigram_steps [] = snil
  trigram_steps (t ∷ ts) = single (trigram_intersect (t ∷ ts))

  unfoldable pub phrase_steps : Str → Steps F32
  unfolding extend
  phrase_steps text =
      let tokens = tokenize_query_with_positions text in
      if case_insensitive
      then ci_phrase text tokens
      else extend (trigram_steps (query_trigrams text)) (positional tokens)

  abbrev ci_pattern : Str → Str
  ci_pattern pattern = elim (strip_prefix (codes "(?i)") pattern) [
    | some s ↦ pattern
    | none ↦ codes "(?i)" ++ pattern
  ]

  abbrev prefix_steps : Option Str → Steps F32
  prefix_steps none = snil
  prefix_steps (some prefix) = trigram_steps (query_trigrams prefix)

  unfoldable pub regex_steps : Str → Steps F32
  unfolding extract_regex_prefix
  regex_steps pattern =
      if case_insensitive then snil else prefix_steps (extract_regex_prefix pattern)

  unfoldable pub regex_verification : Str → VerificationStep F32
  regex_verification pattern = regex (if case_insensitive then ci_pattern pattern else pattern)

  -- verifications.push, then 0, 1 or more of them.
  abbrev push_some : Option (VerificationStep F32) → Verifications F32 → Verifications F32
  push_some none vs = vs
  push_some (some v) vs = vcons v vs

  abbrev combined :
      (Verifications F32 → VerificationStep F32) → Verifications F32 → Option (VerificationStep F32)
  combined make vnil = none
  combined make (vcons v vnil) = some v
  combined make (vcons v (vcons w ws)) = some (make (vcons v (vcons w ws)))

  abbrev push_plan : Steps F32 → Option (VerificationStep F32) → Plans F32 → Plans F32
  push_plan snil v plans = plans
  push_plan (scons s ss) v plans = pcons (plan (scons s ss) v) plans

  abbrev union_steps : Plans F32 → Steps F32
  union_steps pnil = snil
  union_steps (pcons p ps) = single (union (pcons p ps))

  abbrev negated : Option (VerificationStep F32) → Option (VerificationStep F32)
  negated none = none
  negated (some v) = some (not_step v)

  unfoldable mutual
    pub plan_node : QueryNode F32 → Steps F32 × Option (VerificationStep F32)
    plan_node QueryNode.empty = (snil, none)
    plan_node (QueryNode.literal text) = (literal_steps text, some (literal text))
    plan_node (QueryNode.boosted_literal text boost) =
        (literal_steps text, some (boosted_literal text boost))
    plan_node (QueryNode.near terms distance) = (near_steps terms, some (near terms distance))
    plan_node (QueryNode.phrase text) = (phrase_steps text, some (phrase text case_insensitive))
    plan_node (QueryNode.regex pattern) = (regex_steps pattern, some (regex_verification pattern))
    plan_node (QueryNode.and_node nodes) =
        ((plan_all nodes).0, combined and_step (plan_all nodes).1)
    plan_node (QueryNode.or_node nodes) =
        (union_steps (plan_any nodes).0, combined or_step (plan_any nodes).1)
    plan_node (QueryNode.not_node inner) = (
      single (exclude (plan (plan_node inner).0 (plan_node inner).1)),
      negated (plan_node inner).1,
    )

    -- The loops over the nodes of And and of Or.
    pub plan_all : Nodes F32 → Steps F32 × Verifications F32
    plan_all Nodes.nil = (snil, vnil)
    plan_all (Nodes.cons node nodes) = (
      extend (plan_node node).0 (plan_all nodes).0,
      push_some (plan_node node).1 (plan_all nodes).1,
    )

    pub plan_any : Nodes F32 → Plans F32 × Verifications F32
    plan_any Nodes.nil = (pnil, vnil)
    plan_any (Nodes.cons node nodes) = (
      push_plan (plan_node node).0 (plan_node node).1 (plan_any nodes).0,
      push_some (plan_node node).1 (plan_any nodes).1,
    )

  abbrev filter_of : QueryFilters → FilterStep
  filter_of f = record {
    path_glob = f.path;
    filename = f.filename;
    extension = f.ext;
    language = f.lang;
    size_min = f.size_min;
    size_max = f.size_max;
    mtime_min = f.mtime_min;
    mtime_max = f.mtime_max;
    line_start = f.line_start;
    line_end = f.line_end;
  }

  abbrev filter_steps : QueryFilters → Steps F32
  filter_steps f = if has_any f then single (filter (filter_of f)) else snil

  -- QueryPlan::from_query and QueryPlanner::plan, for a query with this planner's case_insensitive.
  unfoldable pub plan_query : Query F32 → QueryPlan F32
  unfolding plan_node extend has_any
  plan_query q = plan (extend (plan_node q.root).0 (filter_steps q.filters)) (plan_node q.root).1
