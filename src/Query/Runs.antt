-- ===== src/Query/Runs.antt =====
-- Runs of the query parser, the planner and the executor, and their theorems at concrete inputs.
use fxi.Base.{
  arith, ◌+◌, ℕ, ◌≡◌, refl, true, false, ◌&&◌, ◌||◌, none, some, ◌∷◌, [], ◌==◌, leb, length,
  if◌then◌else◌, Bool-cases, inl, inr,
}
use fxi.Query.Text.{codes, span, parse_uint}
use fxi.Query.Syntax.{
  QueryNode, literal, boosted_literal, regex, and_node, or_node, nil, cons, push, Query, no_filters,
  default_options,
}
use fxi.Query.Parser.{parse_query, parse_or, skip_whitespace, parse_atom, parse_boost, boosted}
use fxi.Query.Parser.Total.{parse_query_total}
use fxi.Query.Parser.Date.{days_since_epoch}
use fxi.Query.Parser.Date.Calendar.{calendar_days, days_since_epoch-calendar_days}
use fxi.Query.Parser.Boosts.{nothing, parse_query-boost}
use fxi.Query.Ascii.{ascii}
use fxi.Query.Plan.{VerificationStep, QueryPlan, plan, token_lookup, exclude, snil, scons, single}
use fxi.Query.Planner.{Tokenizer, plan_node, plan_query, regex_steps, literal_steps}
use fxi.Query.Planner.Prefix.{extract_regex_prefix, has_alternation, prefix_loop}
use fxi.Query.Planner.Branches.{
  any_narrowed, found_by_any, found, filters_nothing, execute_plan-or_node, execute_plan-plan_query,
}
use fxi.Query.Sets.{elem}
use fxi.Query.Sets.Lists.{lists, retain}
use fxi.Query.Executor.{
  Reader, execute_plan, exclude_all, verify_excluded_docs, collect, without_stop_grams,
  should_use_parallel, read_file_cached, read_file_mmap,
}
use fxi.Query.Executor.Meaning.{narrows}

abbrev plain : QueryNode ℕ → Query ℕ
plain node = record { root = node; filters = no_filters; options = default_options }

parse_or_and :
    parse_query ascii (codes "foo | bar ^3:baz")
    ≡ some (
        plain (
          or_node (
            cons (literal (codes "foo")) (
              cons
                (and_node
                  (cons (literal (codes "bar")) (cons (boosted_literal (codes "baz") 3) nil)))
                nil))))
unfolding parse_query parse_or skip_whitespace parse_atom span push parse_boost boosted parse_uint
parse_or_and = refl

parse_unbalanced : parse_query ascii (codes "a) b") ≡ some (plain (literal (codes "a")))
unfolding parse_query parse_or skip_whitespace parse_atom span push parse_boost boosted parse_uint
parse_unbalanced = refl

parse_query_total_example :
    (q : Query ℕ) × (parse_query ascii (codes "((foo | -bar) ^2:\"baz") ≡ some q)
parse_query_total_example = parse_query_total ascii (codes "((foo | -bar) ^2:\"baz")

parse_query-boost_example : parse_query ascii (codes "^404") ≡ some (nothing ascii)
parse_query-boost_example = parse_query-boost ascii (codes "404") refl refl

-- An index of the documents 0, 1 and 2. A token of three bytes is in 0 and 1, any other in 2; the
-- content of document 1 is the only one that matches.
shelf_fresh :
    (d content : ℕ) → (if d == 1 then some 1 else none) ≡ some content → some d ≡ some content
shelf_fresh d content h = elim (Bool-cases (d == 1)) [ inl e ↦ ground arith | inr e ↦ ground arith ]

abbrev shelf : Reader ℕ lists
shelf = record {
  Content = ℕ;
  is_stop_gram = λ t. t == 0;
  get_trigram_docs_with_bloom = λ ts. 0 ∷ [];
  get_token_docs = λ t. if length t == 3 then 0 ∷ 1 ∷ [] else 2 ∷ [];
  get_token_docs_containing = λ t. [];
  resolve_phrase_positional = λ ts. λ cands. some (1 ∷ 2 ∷ []);
  valid_doc_ids = 0 ∷ 1 ∷ 2 ∷ [];
  is_valid = λ d. elem d (0 ∷ 1 ∷ 2 ∷ []);
  meets = λ f. λ d. d == 0;
  file_cache = λ d. if d == 1 then some 1 else none;
  read_to_string = λ d. some d;
  has_match = λ c. λ v. c == 1;
  sort_dedup = λ ts. ts;
  num_threads = 4;
  contains-valid_doc_ids = λ d. refl;
  file_cache-fresh = shelf_fresh;
  resolve_phrase_positional-is_some = λ ts. λ b. refl;
  resolve_phrase_positional-among = λ ts. λ b. λ d. λ h. refl;
}

abbrev foo_not_bar : QueryPlan ℕ
foo_not_bar =
    plan
      (scons (token_lookup (codes "foo")) (
        scons
          (exclude (
            plan (single (token_lookup (codes "bar")))
              (some (VerificationStep.literal (codes "bar")))))
          snil))
      none

execute_foo_not_bar : execute_plan ℕ lists shelf foo_not_bar ≡ 0 ∷ []
unfolding execute_plan exclude_all verify_excluded_docs collect should_use_parallel retain
    read_file_cached read_file_mmap
execute_foo_not_bar = refl

abbrev three_bytes : Tokenizer
three_bytes = record {
  query_trigrams = λ s. if leb 3 (length s) then 7 ∷ [] else [];
  tokenize_query = λ s. s ∷ [];
  tokenize_query_with_positions = λ s. (s, 0) ∷ [];
  sort_dedup = λ ts. ts;
}

abbrev word_or_regex : QueryNode ℕ
word_or_regex = or_node (cons (literal (codes "foo")) (cons (regex (codes "a.*b")) nil))

-- The branch of the regex is not searched.
regex_lost :
    execute_plan ℕ lists shelf (plan (plan_node ascii three_bytes false word_or_regex).0 none)
    ≡ 0 ∷ 1 ∷ 0 ∷ []
unfolding plan_node literal_steps regex_steps extract_regex_prefix has_alternation prefix_loop
    execute_plan without_stop_grams exclude_all
regex_lost = refl

execute_plan-or_node_example :
    elem 2
      (execute_plan ℕ lists shelf (plan (plan_node ascii three_bytes false word_or_regex).0 none))
    ≡ (if any_narrowed ascii three_bytes false lists shelf
          (cons (literal (codes "foo")) (cons (regex (codes "a.*b")) nil))
        then found_by_any ascii three_bytes false lists shelf
            (cons (literal (codes "foo")) (cons (regex (codes "a.*b")) nil))
            2
        else true)
execute_plan-or_node_example =
    execute_plan-or_node ascii three_bytes false lists shelf
      (cons (literal (codes "foo")) (cons (regex (codes "a.*b")) nil)) none 2

abbrev foo_in_rust : Query ℕ
foo_in_rust = record {
  root = literal (codes "foo");
  filters = record no_filters { ext = some (codes "rs") };
  options = default_options;
}

foo_narrows :
    narrows ℕ lists shelf (plan_node ascii three_bytes false (literal (codes "foo"))).0 ≡ true
unfolding plan_node literal_steps narrows
foo_narrows = refl

execute_plan-plan_query_example :
    elem 0 (execute_plan ℕ lists shelf (plan_query ascii three_bytes false foo_in_rust)) ≡ (
      found ascii three_bytes false lists shelf (literal (codes "foo")) 0
      && (filters_nothing foo_in_rust.filters || true))
execute_plan-plan_query_example =
    execute_plan-plan_query ascii three_bytes false lists shelf foo_in_rust 0 foo_narrows

days_since_epoch-calendar_days_example : days_since_epoch 2101 3 1 ≡ calendar_days 2101 3 1 + 1
days_since_epoch-calendar_days_example =
    days_since_epoch-calendar_days 2101 3 1 (omega arith) (omega arith) (omega arith) (omega arith)
