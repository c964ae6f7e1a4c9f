-- ===== src/Query/Executor/Meaning.antt =====
-- What a plan means for one document: the specification of execute_plan of
-- src/query/executor.rs, which knows no candidate set, no order and no early exit.
use fxi.Base.{
  ℕ, Bool, true, false, ◌||◌, ◌&&◌, not, Option, none, some, List, [], ◌∷◌, leb, length,
  if◌then◌else◌,
}
use fxi.Query.Text.{Str}
use fxi.Query.Sets.{Sets}
use fxi.Query.Plan.{
  VerificationStep, QueryPlan, plan, PlanStep, trigram_intersect, token_lookup, union,
  token_or_trigram, intersect, exclude, filter, positional_phrase, Steps, snil, scons, Plans, pnil,
  pcons,
}
use fxi.Query.Executor.{
  is_some, among, Reader, without_stop_grams, trigram_docs, matches, verification_of,
}

module _ (F : Type 0) (sets : Sets) (reader : Reader F sets) where
  open sets use {contains}
  open reader use {
    get_trigram_docs_with_bloom, get_token_docs, get_token_docs_containing,
    resolve_phrase_positional, is_valid, meets, read_to_string, sort_dedup,
  }

  -- The trigrams of a TrigramIntersect that are looked up.
  abbrev pub usable : List ℕ → List ℕ
  usable trigrams = sort_dedup (without_stop_grams F sets reader trigrams)

  abbrev pub has_all : List Str → ℕ → Bool
  has_all [] d = true
  has_all (sub ∷ subs) d = contains (get_token_docs sub) d && has_all subs d

  abbrev pub has_substring : Str → List Str → List ℕ → ℕ → Bool
  has_substring token subs [] d =
      contains (get_token_docs_containing token) d || (leb 2 (length subs) && has_all subs d)
  has_substring token subs (t ∷ ts) d = contains (get_trigram_docs_with_bloom (t ∷ ts)) d

  -- Whether the content on the disk has a match.
  abbrev pub confirms : Option (VerificationStep F) → ℕ → Bool
  confirms none d = true
  confirms (some v) d = matches F sets reader v (read_to_string d)

  abbrev pub any_plan : Plans F → Bool
  any_plan pnil = false
  any_plan (pcons p plans) = true

  -- Whether a step restricts the candidates at all.
  abbrev pub narrows_step : PlanStep F → Bool
  narrows_step (trigram_intersect trigrams) = is_some (trigram_docs F sets reader (usable trigrams))
  narrows_step (intersect plans) = any_plan plans
  narrows_step (exclude p) = false
  narrows_step (positional_phrase tokens) = is_some (resolve_phrase_positional tokens none)
  narrows_step (token_lookup token) = true
  narrows_step (token_or_trigram token subs trigrams) = true
  narrows_step (union plans) = true
  narrows_step (filter f) = true

  unfoldable pub narrows : Steps F → Bool
  narrows snil = false
  narrows (scons step steps) = narrows_step step || narrows steps

  unfoldable mutual
    -- A plan that restricts nothing means every valid document, whatever it excludes.
    pub in_plan : QueryPlan F → ℕ → Bool
    in_plan (plan steps v) d =
        if narrows steps then in_steps steps d && not (excluded steps d) else is_valid d

    pub in_steps : Steps F → ℕ → Bool
    in_steps snil d = true
    in_steps (scons step steps) d = in_step step d && in_steps steps d

    pub in_step : PlanStep F → ℕ → Bool
    in_step (trigram_intersect trigrams) d =
        among sets (trigram_docs F sets reader (usable trigrams)) d
    in_step (token_lookup token) d = contains (get_token_docs token) d
    in_step (token_or_trigram token subs trigrams) d =
        contains (get_token_docs token) d
        || has_substring token subs (without_stop_grams F sets reader trigrams) d
    in_step (union plans) d = in_any plans d
    in_step (intersect plans) d = in_all plans d
    in_step (exclude p) d = true
    in_step (filter f) d = is_valid d && meets f d
    in_step (positional_phrase tokens) d = among sets (resolve_phrase_positional tokens none) d

    pub in_any : Plans F → ℕ → Bool
    in_any pnil d = false
    in_any (pcons p plans) d = in_plan p d || in_any plans d

    pub in_all : Plans F → ℕ → Bool
    in_all pnil d = true
    in_all (pcons p plans) d = in_plan p d && in_all plans d

    pub excluded : Steps F → ℕ → Bool
    excluded snil d = false
    excluded (scons step steps) d = excluded_step step d || excluded steps d

    pub excluded_step : PlanStep F → ℕ → Bool
    excluded_step (exclude p) d = in_plan p d && confirms (verification_of F sets reader p) d
    excluded_step (trigram_intersect trigrams) d = false
    excluded_step (token_lookup token) d = false
    excluded_step (token_or_trigram token subs trigrams) d = false
    excluded_step (union plans) d = false
    excluded_step (intersect plans) d = false
    excluded_step (filter f) d = false
    excluded_step (positional_phrase tokens) d = false
