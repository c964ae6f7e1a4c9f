-- ===== src/Query/Executor/Candidates.antt =====
-- The set operations of src/query/executor.rs, one document at a time.
use fxi.Base.{
  ℕ, ◌≡◌, refl, arith, Bool, true, false, ◌||◌, ◌&&◌, not, Option, none, some, List, [], ◌∷◌, ◌++◌,
  leb, length, if◌then◌else◌, Bool-cases, Option-cases, ==_iff, inl, inr,
}
use fxi.Query.Text.{Str}
use fxi.Query.Sets.{Sets, elem}
use fxi.Query.Plan.{VerificationStep, FilterStep}
use fxi.Query.Executor.{
  is_some, among, Reader, narrow, narrow_if, sub_token_docs, substring_docs, collect, matches,
  verify_excluded_docs, apply_filter, Excluded, exclude_one, exclude_all, should_use_parallel,
  docs_of, read_file_cached, read_file_mmap,
}
use fxi.Query.Executor.Meaning.{has_all, has_substring, confirms}

pub &&-assoc : (a b c : Bool) → ((a && b) && c) ≡ (a && (b && c))
&&-assoc a b c = ground arith

module _ (F : Type 0) (sets : Sets) (reader : Reader F sets) where
  open sets use {
    B, new, contains, insert, and_of, or_of, minus, is_empty, iter, contains-new, contains-insert,
    contains-and_of, contains-or_of, contains-minus, contains-is_empty, elem-iter, len,
  }
  open reader use {
    get_token_docs, get_token_docs_containing, get_trigram_docs_with_bloom, valid_doc_ids, is_valid,
    meets, file_cache, read_to_string, contains-valid_doc_ids, file_cache-fresh,
  }

  pub among-narrow :
      (cands : Option B) (b : B) (d : ℕ)
      → among sets (narrow F sets reader cands b) d ≡ (among sets cands d && contains b d)
  among-narrow none b d = refl
  among-narrow (some c) b d = contains-and_of c b d

  pub among-narrow_if :
      (cands o : Option B) (d : ℕ)
      → among sets (narrow_if F sets reader cands o) d ≡ (among sets cands d && among sets o d)
  among-narrow_if cands none d = ground arith
  among-narrow_if cands (some b) d = among-narrow cands b d

  pub is_some-narrow : (cands : Option B) (b : B) → is_some (narrow F sets reader cands b) ≡ true
  is_some-narrow none b = refl
  is_some-narrow (some c) b = refl

  pub is_some-narrow_if :
      (cands o : Option B)
      → is_some (narrow_if F sets reader cands o) ≡ (is_some cands || is_some o)
  is_some-narrow_if none none = refl
  is_some-narrow_if none (some b) = refl
  is_some-narrow_if (some c) none = refl
  is_some-narrow_if (some c) (some b) = refl

  pub contains-collect :
      (test : ℕ → Bool) (ds : List ℕ) (b : B) (d : ℕ)
      → contains (collect F sets reader test ds b) d ≡ (contains b d || (elem d ds && test d))
  unfolding collect
  contains-collect test [] b d = ground arith
  contains-collect test (x ∷ ds) b d =
      let ih = contains-collect test ds (if test x then insert b x else b) d in
      let added = contains-insert b x d in
      let same = ==_iff d x in
      elim (Bool-cases (test x)) [ inl e ↦ ground arith | inr e ↦ ground arith ]

  pub contains-sub_token_docs :
      (subs : List Str) (docs : Option B) (d : ℕ)
      → among sets (sub_token_docs F sets reader subs docs) d
        ≡ (among sets docs d && has_all F sets reader subs d)
  unfolding sub_token_docs
  contains-sub_token_docs [] docs d = ground arith
  contains-sub_token_docs (sub ∷ subs) docs d =
      let ih = contains-sub_token_docs subs (narrow F sets reader docs (get_token_docs sub)) d in
      let step = among-narrow docs (get_token_docs sub) d in ground arith

  pub is_some-sub_token_docs :
      (subs : List Str) (docs : Option B)
      → is_some (sub_token_docs F sets reader subs docs) ≡ (is_some docs || leb 1 (length subs))
  unfolding sub_token_docs
  is_some-sub_token_docs [] docs = ground arith
  is_some-sub_token_docs (sub ∷ subs) docs =
      let ih = is_some-sub_token_docs subs (narrow F sets reader docs (get_token_docs sub)) in
      let step = is_some-narrow docs (get_token_docs sub) in ground arith

  pub contains-substring_docs :
      (token : Str) (subs : List Str) (ts : List ℕ) (docs : B) (d : ℕ)
      → contains (substring_docs F sets reader token subs ts docs) d
        ≡ (contains docs d || has_substring F sets reader token subs ts d)
  contains-substring_docs token subs (t ∷ ts) docs d =
      contains-or_of docs (get_trigram_docs_with_bloom (t ∷ ts)) d
  contains-substring_docs token subs [] docs d =
      let base = contains-or_of docs (get_token_docs_containing token) d in
      let parts = contains-sub_token_docs subs none d in
      let found = is_some-sub_token_docs subs none in
      elim (Option-cases (sub_token_docs F sets reader subs none)) [
        | inl e ↦ let none_found = rw e at (found) in rw e (ground arith)
        | inr (b, e) ↦
            let more = contains-or_of (or_of docs (get_token_docs_containing token)) b d in
            let all_found = rw e at (parts) in rw e (ground arith)
      ]

  -- The cached read gives what stands on the disk, as the mapped read does.
  read_file_cached-fresh : (d : ℕ) → read_file_cached F sets reader d ≡ read_to_string d
  unfolding read_file_cached
  read_file_cached-fresh d = elim (Option-cases (file_cache d)) [
    | inl missing ↦ rw missing refl
    | inr (content, hit) ↦ rw (hit, file_cache-fresh d content hit) refl
  ]

  pub contains-verify_excluded_docs :
      (b : B) (v : VerificationStep F) (d : ℕ)
      → contains (verify_excluded_docs F sets reader b v) d
        ≡ (contains b d && matches F sets reader v (read_to_string d))
  unfolding verify_excluded_docs read_file_mmap
  contains-verify_excluded_docs b v d =
      let cached =
        contains-collect (λ (x : ℕ). matches F sets reader v (read_file_cached F sets reader x))
          (iter b) new d in
      let mapped =
        contains-collect (λ (x : ℕ). matches F sets reader v (read_to_string x)) (iter b) new d in
      let agrees = read_file_cached-fresh d in
      let held = elem-iter b d in
      let none_new = contains-new d in
      elim (Bool-cases (should_use_parallel F sets reader (len b))) [
        | inl e ↦ ground arith
        | inr e ↦ ground arith
      ]

  pub contains-apply_filter :
      (f : FilterStep) (cands : Option B) (d : ℕ)
      → contains (apply_filter F sets reader f cands) d
        ≡ (among sets cands d && (is_valid d && meets f d))
  unfolding apply_filter
  contains-apply_filter f cands d =
      let kept =
        contains-collect (λ (x : ℕ). is_valid x && meets f x) (iter (docs_of F sets reader cands))
          new d in
      let held = elem-iter (docs_of F sets reader cands) d in
      let none_new = contains-new d in let valid = contains-valid_doc_ids d in ground arith

  -- What an exclusion removes.
  abbrev pub removes : Excluded F sets reader → ℕ → Bool
  removes (v, b) d = contains b d && confirms F sets reader v d

  abbrev pub removed : List (Excluded F sets reader) → ℕ → Bool
  removed [] d = false
  removed (e ∷ es) d = removes e d || removed es d

  pub contains-exclude_one :
      (c : B) (e : Excluded F sets reader) (d : ℕ)
      → contains (exclude_one F sets reader c e) d ≡ (contains c d && not (removes e d))
  contains-exclude_one c (none, b) d = let base = contains-minus c b d in ground arith
  contains-exclude_one c (some v, b) d =
      let checked = contains-verify_excluded_docs (and_of b c) v d in
      let both = contains-and_of b c d in
      let base = contains-minus c (verify_excluded_docs F sets reader (and_of b c) v) d in
      ground arith

  pub contains-exclude_all :
      (c : B) (es : List (Excluded F sets reader)) (d : ℕ)
      → contains (exclude_all F sets reader c es) d ≡ (contains c d && not (removed es d))
  unfolding exclude_all
  contains-exclude_all c [] d = ground arith
  contains-exclude_all c (e ∷ es) d =
      let ih = contains-exclude_all (exclude_one F sets reader c e) es d in
      let one = contains-exclude_one c e d in
      elim (Bool-cases (is_empty c)) [
        | inl h ↦ let gone = contains-is_empty c d h in ground arith
        | inr h ↦ ground arith
      ]

  pub removed-append :
      (es : List (Excluded F sets reader)) (e : Excluded F sets reader) (d : ℕ)
      → removed (es ++ (e ∷ [])) d ≡ (removed es d || removes e d)
  removed-append [] e d = ground arith
  removed-append (x ∷ es) e d = let ih = removed-append es e d in ground arith
