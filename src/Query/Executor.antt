-- ===== src/Query/Executor.antt =====
-- src/query/executor.rs: the narrowing phase, which turns a plan into a set of documents.
pub mod Meaning
pub mod Candidates
pub mod Narrowing
pub mod Index
mod Runs
use fxi.Base.{
  ℕ, ◌≡◌, Bool, true, false, ◌||◌, ◌&&◌, not, Option, none, some, List, [], ◌∷◌, ◌++◌, ◌*◌, leb,
  ltb, length, if◌then◌else◌,
}
use fxi.Query.Text.{Str}
use fxi.Query.Sets.{Sets}
use fxi.Query.Plan.{
  VerificationStep, FilterStep, QueryPlan, plan, PlanStep, trigram_intersect, token_lookup, union,
  token_or_trigram, intersect, exclude, filter, positional_phrase, Steps, snil, scons, Plans, pnil,
  pcons,
}

abbrev pub is_some : {A : Type 0} → Option A → Bool
is_some none = false
is_some (some a) = true

-- Whether a document is among the candidates; before any narrowing, every document is.
abbrev pub among : (sets : Sets) → Option (Sets.B sets) → ℕ → Bool
among sets none d = true
among sets (some b) d = Sets.contains sets b d

-- What execution takes from the index: its postings, its documents and their contents.
pub record Reader (F : Type 0) (sets : Sets) : Type 1 where
  pub Content : Type 0
  pub is_stop_gram : ℕ → Bool
  pub get_trigram_docs_with_bloom : List ℕ → Sets.B sets
  pub get_token_docs : Str → Sets.B sets
  pub get_token_docs_containing : Str → Sets.B sets
  pub resolve_phrase_positional : List (Str × ℕ) → Option (Sets.B sets) → Option (Sets.B sets)
  pub valid_doc_ids : Sets.B sets
  -- A document exists and is neither stale nor a tombstone.
  pub is_valid : ℕ → Bool
  -- The tests of a filter on the document's path, language, size and times.
  pub meets : FilterStep → ℕ → Bool
  -- The entry of the file cache under the full path of a document.
  pub file_cache : ℕ → Option Content
  -- get_document, get_full_path and read_to_string: what stands on the disk, if it is text.
  pub read_to_string : ℕ → Option Content
  pub has_match : Content → VerificationStep F → Bool
  -- sort_unstable and dedup on trigrams
  pub sort_dedup : List ℕ → List ℕ
  pub num_threads : ℕ
  pub contains-valid_doc_ids : (d : ℕ) → Sets.contains sets valid_doc_ids d ≡ is_valid d
  -- No file has changed since it was put into the cache.
  pub file_cache-fresh :
      (d : ℕ) (content : Content) → file_cache d ≡ some content → read_to_string d ≡ some content
  -- Positions are decoded for the candidates only, which does not change what they say of those.
  pub resolve_phrase_positional-is_some :
      (ts : List (Str × ℕ)) (b : Sets.B sets)
      → is_some (resolve_phrase_positional ts (some b))
        ≡ is_some (resolve_phrase_positional ts none)
  pub resolve_phrase_positional-among :
      (ts : List (Str × ℕ)) (b : Sets.B sets) (d : ℕ)
      → Sets.contains sets b d ≡ true
      → among sets (resolve_phrase_positional ts (some b)) d
        ≡ among sets (resolve_phrase_positional ts none) d

module _ (F : Type 0) (sets : Sets) (reader : Reader F sets) where
  open sets use {B, new, contains, insert, and_of, or_of, minus, is_empty, len, iter}
  open reader use {
    Content, is_stop_gram, get_trigram_docs_with_bloom, get_token_docs, get_token_docs_containing,
    resolve_phrase_positional, valid_doc_ids, is_valid, meets, file_cache, read_to_string,
    has_match, sort_dedup, num_threads,
  }

  abbrev pub cached_or : Option Content → Option Content → Option Content
  cached_or none content = content
  cached_or (some cached) content = some cached

  -- After a miss the content of the disk is put into the cache, which changes no later read of a file
  -- that stays as it is.
  unfoldable pub read_file_cached : ℕ → Option Content
  read_file_cached d = cached_or (file_cache d) (read_to_string d)

  -- A mapped file has the content of the disk, as a small file that is read has.
  unfoldable pub read_file_mmap : ℕ → Option Content
  read_file_mmap d = read_to_string d

  unfoldable pub should_use_parallel : ℕ → Bool
  should_use_parallel count = ltb (num_threads * 4) count

  -- Some(match candidates { Some(existing) => existing & result, None => result })
  abbrev pub narrow : Option B → B → Option B
  narrow none result = some result
  narrow (some existing) result = some (and_of existing result)

  abbrev pub narrow_if : Option B → Option B → Option B
  narrow_if cands none = cands
  narrow_if cands (some result) = narrow cands result

  unfoldable pub without_stop_grams : List ℕ → List ℕ
  without_stop_grams [] = []
  without_stop_grams (t ∷ ts) =
      let rest = without_stop_grams ts in if is_stop_gram t then rest else t ∷ rest

  abbrev pub trigram_docs : List ℕ → Option B
  trigram_docs [] = none
  trigram_docs (t ∷ ts) = some (get_trigram_docs_with_bloom (t ∷ ts))

  unfoldable pub sub_token_docs : List Str → Option B → Option B
  sub_token_docs [] docs = docs
  sub_token_docs (sub ∷ subs) docs = sub_token_docs subs (narrow docs (get_token_docs sub))

  abbrev pub or_some : B → Option B → B
  or_some docs none = docs
  or_some docs (some more) = or_of docs more

  -- The substring side of TokenOrTrigram, on the trigrams that are not stop-grams.
  abbrev pub substring_docs : Str → List Str → List ℕ → B → B
  substring_docs token subs [] docs =
      let containing = or_of docs (get_token_docs_containing token) in
      if leb 2 (length subs) then or_some containing (sub_token_docs subs none) else containing
  substring_docs token subs (t ∷ ts) docs = or_of docs (get_trigram_docs_with_bloom (t ∷ ts))

  abbrev pub matches : VerificationStep F → Option Content → Bool
  matches v none = false
  matches v (some content) = has_match content v

  -- A loop over documents that inserts those which pass a test.
  unfoldable pub collect : (ℕ → Bool) → List ℕ → B → B
  collect test [] result = result
  collect test (d ∷ ds) result = collect test ds (if test d then insert result d else result)

  unfoldable pub verify_excluded_docs : B → VerificationStep F → B
  unfolding collect should_use_parallel read_file_cached read_file_mmap
  verify_excluded_docs to_check v =
      if should_use_parallel (len to_check)
      then collect (λ (d : ℕ). matches v (read_file_mmap d)) (iter to_check) new
      else collect (λ (d : ℕ). matches v (read_file_cached d)) (iter to_check) new

  abbrev pub docs_of : Option B → B
  docs_of none = valid_doc_ids
  docs_of (some cands) = cands

  unfoldable pub apply_filter : FilterStep → Option B → B
  unfolding collect
  apply_filter f cands = collect (λ (d : ℕ). is_valid d && meets f d) (iter (docs_of cands)) new

  -- An excluded plan: its verification, and the set that it comes to. That set is used only where
  -- the code executes the plan.
  abbrev pub Excluded : Type 0
  Excluded = Option (VerificationStep F) × B

  abbrev pub exclude_one : B → Excluded → B
  exclude_one cands (none, excluded) = minus cands excluded
  exclude_one cands (some v, excluded) =
      minus cands (verify_excluded_docs (and_of excluded cands) v)

  unfoldable pub exclude_all : B → List Excluded → B
  unfolding verify_excluded_docs
  exclude_all cands [] = cands
  exclude_all cands (e ∷ es) =
      let rest = exclude_all (exclude_one cands e) es in if is_empty cands then cands else rest

  -- After the steps: the exclusions, or every valid document.
  abbrev pub resolve_exclusions : Option B → List Excluded → B
  resolve_exclusions none es = valid_doc_ids
  resolve_exclusions (some cands) es = exclude_all cands es

  abbrev pub exhausted : Option B → Bool
  exhausted none = false
  exhausted (some cands) = is_empty cands

  abbrev pub State : Type 0
  State = Option B × List Excluded

  abbrev pub verification_of : QueryPlan F → Option (VerificationStep F)
  verification_of (plan steps v) = v

  unfoldable mutual
    pub execute_plan : QueryPlan F → B
    execute_plan (plan steps v) = execute_steps steps none []

    -- The loop over the steps, on the candidates and the deferred exclusions.
    pub execute_steps : Steps F → Option B → List Excluded → B
    execute_steps snil cands es = resolve_exclusions cands es
    execute_steps (scons step steps) cands es =
        let after = execute_step step cands es in
        let rest = execute_steps steps after.0 after.1 in
        if exhausted after.0 then resolve_exclusions after.0 after.1 else rest

    pub execute_step : PlanStep F → Option B → List Excluded → State
    execute_step (trigram_intersect trigrams) cands es =
        (narrow_if cands (trigram_docs (sort_dedup (without_stop_grams trigrams))), es)
    execute_step (token_lookup token) cands es = (narrow cands (get_token_docs token), es)
    execute_step (token_or_trigram token subs trigrams) cands es = (
      narrow cands (substring_docs token subs (without_stop_grams trigrams) (get_token_docs token)),
      es,
    )
    execute_step (union plans) cands es = (narrow cands (union_docs plans new), es)
    execute_step (intersect plans) cands es = (narrow_if cands (intersect_docs plans none), es)
    execute_step (exclude p) cands es = (cands, es ++ ((verification_of p, execute_plan p) ∷ []))
    execute_step (filter f) cands es = (some (apply_filter f cands), es)
    execute_step (positional_phrase tokens) cands es =
        (narrow_if cands (resolve_phrase_positional tokens cands), es)

    pub union_docs : Plans F → B → B
    union_docs pnil docs = docs
    union_docs (pcons p plans) docs = union_docs plans (or_of docs (execute_plan p))

    pub intersect_docs : Plans F → Option B → Option B
    intersect_docs pnil docs = docs
    intersect_docs (pcons p plans) docs = intersect_docs plans (narrow docs (execute_plan p))
