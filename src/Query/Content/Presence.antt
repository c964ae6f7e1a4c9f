-- ===== src/Query/Content/Presence.antt =====
-- src/query/executor.rs: has_match and verify_content_static agree on whether a content matches.
use fxi.Base.{
  ℕ, ◌+◌, ◌^◌, ◌<◌, ◌≡◌, refl, sym, ap, ◌∙◌, arith, Bool, true, false, not, ◌&&◌, ◌||◌, Option,
  none, some, List, [], ◌∷◌, ◌++◌, length, Bool-cases, inl, inr, if◌then◌else◌,
}
use fxi.Query.Text.{Str, Std, contains_char, is_empty}
use fxi.Query.Plan.{
  VerificationStep, literal, boosted_literal, phrase, regex, near, and_step, or_step, not_step,
  Verifications, vnil, vcons,
}
use fxi.Query.Content.{lines, no_items, found, Memmem, Regexes, Match, occurs}
use fxi.Query.Content.Matches.{
  find_literal_matches, has_literal_match, add_span, regex_lines, find_regex_matches,
}
use fxi.Query.Content.Verify.{
  has_regex, regex_matches, has_match, has_all, has_any, verify_content, verify_all, verify_any,
}
use fxi.Query.Content.Lines.{in_a_line, no_breaks, occurs-lines, no_breaks-as_bytes}
use fxi.Query.Content.Agreement.{
  no_items-append, IsPlainCase, no_items-exact_matches, no_items-find_literal_matches,
}
use fxi.Utils.Tokenizer.{encode, as_bytes}

no_items-encode : (c : ℕ) (more : List ℕ) → no_items (encode c ++ more) ≡ false
unfolding encode
no_items-encode c more = ground arith

occurs-in_a_line :
    (content : Str) (needle : List ℕ)
    → no_items needle ≡ false
    → no_breaks needle ≡ true
    → occurs needle (as_bytes content) ≡ in_a_line needle (lines content)
occurs-in_a_line content [] full free = absurd (ground arith)
occurs-in_a_line content (n ∷ needle) full free = occurs-lines content n needle free

text_occurs :
    (content text : Str)
    → is_empty text ≡ false
    → contains_char 10 text ≡ false
    → contains_char 13 text ≡ false
    → occurs (as_bytes text) (as_bytes content) ≡ in_a_line (as_bytes text) (lines content)
text_occurs content [] full lf cr = absurd (ground arith)
text_occurs content (c ∷ text) full lf cr =
    occurs-in_a_line content (as_bytes (c ∷ text)) (no_items-encode c (as_bytes text))
      (no_breaks-as_bytes (c ∷ text) lf cr)

abbrev pub is_vnil : {F : Type 0} → Verifications F → Bool
is_vnil vnil = true
is_vnil (vcons s rest) = false

module _ (res : Regexes) where
  -- A line has a match of the pattern.
  abbrev pub matched_line : Regexes.Regex res → List Str → Bool
  matched_line re [] = false
  matched_line re (l ∷ ls) = found (Regexes.find res re l) || matched_line re ls

  abbrev pub IsPlainRegex : Str → Option (Regexes.Regex res) → Type 0
  IsPlainRegex content none = Unit
  IsPlainRegex content (some re) = Regexes.is_match res re content ≡ matched_line re (lines content)

  -- The steps for which a search line by line is meant: a case-sensitive phrase is not empty and
  -- has no line break, a regular expression matches in the content exactly if it matches in a line
  -- of it, and a conjunction is not empty.
  unfoldable mutual
    pub IsPlain : {F : Type 0} → Str → VerificationStep F → Type 0
    IsPlain content (literal text) = Unit
    IsPlain content (boosted_literal text boost) = Unit
    IsPlain content (phrase text true) = Unit
    IsPlain content (phrase text false) =
        (is_empty text ≡ false)
        × (contains_char b'\n' text ≡ false)
        × (contains_char b'\r' text ≡ false)
    IsPlain content (regex pattern) = IsPlainRegex content (Regexes.get_or_compile res pattern)
    IsPlain content (near terms distance) = Unit
    IsPlain content (and_step steps) = (is_vnil steps ≡ false) × ArePlain content steps
    IsPlain content (or_step steps) = ArePlain content steps
    IsPlain content (not_step inner) = IsPlain content inner

    pub ArePlain : {F : Type 0} → Str → Verifications F → Type 0
    ArePlain content vnil = Unit
    ArePlain content (vcons s rest) = IsPlain content s × ArePlain content rest

  no_items-add_span :
      (place : Option (ℕ × ℕ)) (k : ℕ) (l : Str) (rest : List Match)
      → no_items (add_span place k l rest) ≡ (not (found place) && no_items rest)
  no_items-add_span none k l rest = refl
  no_items-add_span (some (a, b)) k l rest = refl

  no_items-regex_lines :
      (re : Regexes.Regex res) (k : ℕ) (ls : List Str)
      → no_items (regex_lines res re k ls) ≡ not (matched_line re ls)
  unfolding regex_lines
  no_items-regex_lines re k [] = refl
  no_items-regex_lines re k (l ∷ ls) =
      rw
        (
          no_items-add_span (Regexes.find res re l) k l (regex_lines res re (k + 1) ls),
          no_items-regex_lines re (k + 1) ls,
        )
        (ground arith)

  no_items-regex_matches :
      (content : Str) (re : Option (Regexes.Regex res))
      → IsPlainRegex content re
      → no_items (regex_matches res content re) ≡ not (has_regex res content re)
  unfolding find_regex_matches
  no_items-regex_matches content none plain = refl
  no_items-regex_matches content (some re) plain =
      no_items-regex_lines re 0 (lines content) ∙ ap not (sym plain)

module _ (std : Std) (mm : Memmem) (res : Regexes) (content : Str)
    (small : 1 + length (as_bytes content) < 2 ^ 32) (plain_case : IsPlainCase std content) where
  exact_phrase :
      (text : Str)
      → is_empty text ≡ false
      → contains_char 10 text ≡ false
      → contains_char 13 text ≡ false
      → no_items (find_literal_matches mm std content text true)
        ≡ not (found (Memmem.find mm (as_bytes text) (as_bytes content)))
  unfolding find_literal_matches
  exact_phrase text full lf cr =
      no_items-exact_matches mm text 0 (lines content)
      ∙ ap not (
          sym (
            Memmem.found-find mm (as_bytes text) (as_bytes content)
            ∙ text_occurs content text full lf cr))

  any_phrase :
      (text : Str) (case_insensitive : Bool)
      → ((case_insensitive ≡ false)
          → (is_empty text ≡ false)
            × (contains_char 10 text ≡ false)
            × (contains_char 13 text ≡ false))
      → no_items (find_literal_matches mm std content text (not case_insensitive))
        ≡ not (
            if case_insensitive
            then has_literal_match mm std content text
            else found (Memmem.find mm (as_bytes text) (as_bytes content)))
  any_phrase text true plain = no_items-find_literal_matches mm std content text small plain_case
  any_phrase text false plain = let (full, lf, cr) = plain refl in exact_phrase text full lf cr

  mutual
    unfolding IsPlain has_match verify_content

    empty-verify :
        {F : Type 0} (v : VerificationStep F)
        → IsPlain res content v
        → no_items (verify_content std mm res content v) ≡ not (has_match std mm res content v)
    empty-verify (literal text) h =
        no_items-find_literal_matches mm std content text small plain_case
    empty-verify (boosted_literal text boost) h =
        no_items-find_literal_matches mm std content text small plain_case
    empty-verify (phrase text true) h = any_phrase text true (λ e. absurd (ground arith))
    empty-verify (phrase text false) h = any_phrase text false (λ e. h)
    empty-verify (regex pattern) h =
        no_items-regex_matches res content (Regexes.get_or_compile res pattern) h
    empty-verify (near terms distance) h = ground arith
    empty-verify (and_step steps) (some_step, h) = empty-all steps [] (rw some_step refl) h
    empty-verify (or_step steps) h = empty-any steps h
    empty-verify (not_step inner) h =
        rw (empty-verify inner h) (elim (Bool-cases (has_match std mm res content inner)) [
          | inl e ↦ rw e refl
          | inr e ↦ rw e refl
        ])

    empty-all :
        {F : Type 0} (steps : Verifications F) (all_matches : List Match)
        → (no_items all_matches && is_vnil steps) ≡ false
        → ArePlain res content steps
        → no_items (verify_all std mm res content steps all_matches)
          ≡ not (has_all std mm res content steps)
    empty-all vnil all_matches full h = ground arith
    empty-all (vcons s rest) all_matches full (plain, h) =
        let here = empty-verify s plain in
        elim (Bool-cases (no_items (verify_content std mm res content s))) [
          | inl e ↦ rw e (ground arith)
          | inr e ↦
              let more =
                empty-all rest (all_matches ++ verify_content std mm res content s)
                  (rw (no_items-append all_matches (verify_content std mm res content s), e)
                    (ground arith))
                  h in
              rw (e, more) (ground arith)
        ]

    empty-any :
        {F : Type 0} (steps : Verifications F)
        → ArePlain res content steps
        → no_items (verify_any std mm res content steps) ≡ not (has_any std mm res content steps)
    empty-any vnil h = refl
    empty-any (vcons s rest) (plain, h) =
        let here = empty-verify s plain in
        let more = empty-any rest h in
        rw
          (no_items-append (verify_content std mm res content s)
            (verify_any std mm res content rest))
          (ground arith)

  -- If the content has fewer than 2 ^ 32 - 1 bytes, lowercasing is the ASCII one on ASCII texts and
  -- makes no line longer, and the steps are meant line by line (phrases without line breaks, regular
  -- expressions that match in a text exactly if in a line, no empty conjunction), then has_match
  -- holds exactly if verify_content reports a match.
  pub has_match-verify_content :
      {F : Type 0} (v : VerificationStep F)
      → IsPlain res content v
      → has_match std mm res content v ≡ not (no_items (verify_content std mm res content v))
  has_match-verify_content v h = let e = empty-verify v h in ground arith
