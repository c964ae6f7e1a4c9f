-- ===== src/Query/Content/Verify.antt =====
-- src/query/executor.rs, has_match and verify_content_static.
use fxi.Base.{
  Bool, true, false, not, ◌&&◌, ◌||◌, Option, none, some, List, [], ◌∷◌, ◌++◌, if◌then◌else◌,
}
use fxi.Query.Text.{Str, Std}
use fxi.Query.Plan.{
  VerificationStep, literal, boosted_literal, phrase, regex, near, and_step, or_step, not_step,
  Verifications, vnil, vcons,
}
use fxi.Query.Content.{lines, found, no_items, Memmem, Regexes, Match}
use fxi.Query.Content.Matches.{find_literal_matches, has_literal_match, find_regex_matches}
use fxi.Query.Content.Proximity.{find_proximity_matches}
use fxi.Utils.Tokenizer.{as_bytes}

-- content.lines().next().unwrap_or("")
abbrev pub first_line : List Str → Str
first_line [] = []
first_line (l ∷ ls) = l

module _ (res : Regexes) where
  abbrev pub has_regex : Str → Option (Regexes.Regex res) → Bool
  has_regex content none = false
  has_regex content (some re) = Regexes.is_match res re content

  abbrev pub regex_matches : Str → Option (Regexes.Regex res) → List Match
  regex_matches content none = []
  regex_matches content (some re) = find_regex_matches res content re

module _ (std : Std) (mm : Memmem) (res : Regexes) where
  unfoldable mutual
    pub has_match : {F : Type 0} → Str → VerificationStep F → Bool
    has_match content (literal text) = has_literal_match mm std content text
    has_match content (boosted_literal text boost) = has_literal_match mm std content text
    has_match content (phrase text case_insensitive) =
        if case_insensitive
        then has_literal_match mm std content text
        else found (Memmem.find mm (as_bytes text) (as_bytes content))
    has_match content (regex pattern) = has_regex res content (Regexes.get_or_compile res pattern)
    has_match content (and_step steps) = has_all content steps
    has_match content (or_step steps) = has_any content steps
    has_match content (not_step inner) = not (has_match content inner)
    has_match content (near terms distance) =
        not (no_items (find_proximity_matches std mm content terms distance))

    pub has_all : {F : Type 0} → Str → Verifications F → Bool
    has_all content vnil = true
    has_all content (vcons s rest) = has_match content s && has_all content rest

    pub has_any : {F : Type 0} → Str → Verifications F → Bool
    has_any content vnil = false
    has_any content (vcons s rest) = has_match content s || has_any content rest

  -- The matches of the steps before are `all_matches`.
  unfoldable mutual
    pub verify_content : {F : Type 0} → Str → VerificationStep F → List Match
    verify_content content (literal text) = find_literal_matches mm std content text false
    verify_content content (boosted_literal text boost) =
        find_literal_matches mm std content text false
    verify_content content (phrase text case_insensitive) =
        find_literal_matches mm std content text (not case_insensitive)
    verify_content content (regex pattern) =
        regex_matches res content (Regexes.get_or_compile res pattern)
    verify_content content (near terms distance) =
        find_proximity_matches std mm content terms distance
    verify_content content (and_step steps) = verify_all content steps []
    verify_content content (or_step steps) = verify_any content steps
    verify_content content (not_step inner) =
        if no_items (verify_content content inner)
        then record { line_number = 1; line = first_line (lines content); start = 0; end = 0 } ∷ []
        else []

    pub verify_all : {F : Type 0} → Str → Verifications F → List Match → List Match
    verify_all content vnil all_matches = all_matches
    verify_all content (vcons s rest) all_matches =
        let step_matches = verify_content content s in
        let more = verify_all content rest (all_matches ++ step_matches) in
        if no_items step_matches then [] else more

    pub verify_any : {F : Type 0} → Str → Verifications F → List Match
    verify_any content vnil = []
    verify_any content (vcons s rest) = verify_content content s ++ verify_any content rest
