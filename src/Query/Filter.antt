-- ===== src/Query/Filter.antt =====
-- src/query/executor.rs: the tests of apply_filter on a document, the languages that a filter names,
-- and the search for terms in a file name.
use fxi.Base.{
  ℕ, suc, ◌≡◌, refl, sym, ap, arith, Bool, true, false, not, ◌&&◌, ◌||◌, Option, none, some, List,
  [], ◌∷◌, map, length, ltb, ◌==◌, if◌then◌else◌, Bool-cases, inl, inr,
}
use fxi.Query.Text.{Str, Std, eq_str, codes, contains_char}
use fxi.Query.Plan.{FilterStep}
use fxi.Query.Content.{starts, occurs}
use fxi.Query.Content.Agreement.{occurs-length}
use fxi.Index.Documents.{Language, code, Document, is_valid}
use fxi.Utils.Tokenizer.{as_bytes, all_ascii, to_ascii_lowercase}

-- Whether a text is one of some words.
abbrev pub one_of : Str → List Str → Bool
one_of s [] = false
one_of s (w ∷ words) = eq_str s w || one_of s words

abbrev language_names : List (List Str × Language)
language_names =
    (codes "rust" ∷ codes "rs" ∷ [], Language.rust)
    ∷ (codes "python" ∷ codes "py" ∷ [], Language.python)
    ∷ (codes "javascript" ∷ codes "js" ∷ [], Language.java_script)
    ∷ (codes "typescript" ∷ codes "ts" ∷ [], Language.type_script)
    ∷ (codes "go" ∷ [], Language.go)
    ∷ (codes "c" ∷ [], Language.c)
    ∷ (codes "cpp" ∷ codes "c++" ∷ [], Language.cpp)
    ∷ (codes "java" ∷ [], Language.java)
    ∷ (codes "ruby" ∷ codes "rb" ∷ [], Language.ruby)
    ∷ (codes "shell" ∷ codes "sh" ∷ codes "bash" ∷ [], Language.shell)
    ∷ []

abbrev named : Str → List (List Str × Language) → Language
named s [] = Language.unknown
named s ((words, l) ∷ rest) = if one_of s words then l else named s rest

unfoldable pub parse_language : Std → Str → Language
parse_language std lang = named (Std.to_lowercase std lang) language_names

-- The `globset` package, and the paths of the standard library: the name of the file and its
-- extension, as text, if there are any.
pub record Globs : Type 1 where
  pub FilePath : Type 0
  pub file_name : FilePath → Option Str
  pub extension : FilePath → Option Str
  pub Glob : Type 0
  pub star : Glob
  -- GlobBuilder with literal_separator, and Glob::new.
  pub with_separator : Str → Option Glob
  pub new_glob : Str → Option Glob
  pub is_match_path : Glob → FilePath → Bool
  pub is_match_text : Glob → Str → Bool

abbrev or_else : {A : Type 0} → Option A → A → A
or_else none a = a
or_else (some b) a = b

-- unwrap_or(false) behind a map
abbrev holds_for : {A : Type 0} → (A → Bool) → Option A → Bool
holds_for test none = false
holds_for test (some a) = test a

-- A filter that is not set lets everything pass.
abbrev if_set : {A : Type 0} → (A → Bool) → Option A → Bool
if_set test none = true
if_set test (some a) = test a

abbrev is_set : {A : Type 0} → Option A → Bool
is_set none = false
is_set (some a) = true

unfoldable pub eq_ignore_ascii_case : Str → Str → Bool
eq_ignore_ascii_case a b = eq_str (map to_ascii_lowercase a) (map to_ascii_lowercase b)

module _ (std : Std) (g : Globs) where
  open g use {FilePath, Glob}

  pub data FilenameMatcher : Type 0 where
    exact : Str → FilenameMatcher
    glob : Glob → FilenameMatcher

  abbrev pub is_match : FilenameMatcher → Str → Bool
  is_match (exact e) filename_lower = eq_str filename_lower e
  is_match (glob m) filename_lower = g.is_match_text m filename_lower

  abbrev glob_or_exact : Str → Option Glob → FilenameMatcher
  glob_or_exact pattern_lower none = exact pattern_lower
  glob_or_exact pattern_lower (some m) = glob m

  unfoldable pub filename_matcher : Str → FilenameMatcher
  filename_matcher pattern =
      let pattern_lower = Std.to_lowercase std pattern in
      if contains_char b'*' pattern || (contains_char b'?' pattern || contains_char b'[' pattern)
      then glob_or_exact pattern_lower (g.new_glob pattern_lower)
      else exact pattern_lower

  unfoldable pub path_passes : Str → Option FilePath → Bool
  path_passes pattern path =
      holds_for (g.is_match_path (or_else (g.with_separator pattern) g.star)) path

  abbrev name_of : Option FilePath → Option Str
  name_of none = none
  name_of (some p) = g.file_name p

  unfoldable pub filename_passes : Str → Option FilePath → Bool
  unfolding filename_matcher
  filename_passes pattern path =
      holds_for (λ name. is_match (filename_matcher pattern) (Std.to_lowercase std name))
        (name_of path)

  unfoldable pub extension_passes : Str → Option FilePath → Bool
  unfolding eq_ignore_ascii_case
  extension_passes ext path =
      holds_for (λ p. eq_ignore_ascii_case (or_else (g.extension p) []) ext) path

  -- The tests behind the document's validity, in the order of the code.
  unfoldable pub meets : FilterStep → Option FilePath → Document → Bool
  unfolding path_passes filename_passes extension_passes parse_language
  meets f doc_path doc =
      let needs_path = is_set f.path_glob || (is_set f.filename || is_set f.extension) in
      let path = if needs_path then doc_path else none in
      if_set (λ p. path_passes p path) f.path_glob
      && (if_set (λ p. filename_passes p path) f.filename
          && (if_set (λ e. extension_passes e path) f.extension
              && (if_set (λ l. code doc.language == code (parse_language std l)) f.language
                  && (if_set (λ m. not (ltb doc.size m)) f.size_min
                      && (if_set (λ m. not (ltb m doc.size)) f.size_max
                          && (if_set (λ m. not (ltb doc.mtime m)) f.mtime_min
                              && if_set (λ m. not (ltb m doc.mtime)) f.mtime_max))))))

  -- Whether the document is put into the result; `get_path` is the index's.
  unfoldable pub check_doc : (Document → Option FilePath) → FilterStep → Option Document → Bool
  unfolding meets is_valid
  check_doc get_path f none = false
  check_doc get_path f (some doc) = is_valid doc && meets f (get_path doc) doc

-- w.iter().zip(n).all(a.to_ascii_lowercase() == b)
abbrev zip_all : List ℕ → List ℕ → Bool
zip_all [] n = true
zip_all (a ∷ w) [] = true
zip_all (a ∷ w) (b ∷ n) = to_ascii_lowercase a == b && zip_all w n

-- h.windows(n.len()).any(...): the windows start where n.len() bytes are left.
abbrev any_window : List ℕ → List ℕ → Bool
any_window [] n = false
any_window (a ∷ h) n =
    if ltb (length (a ∷ h)) (length n) then false else zip_all (a ∷ h) n || any_window h n

unfoldable pub contains_ignore_ascii_case : Str → Str → Bool
contains_ignore_ascii_case haystack needle_lower =
    let h = as_bytes haystack in
    let n = as_bytes needle_lower in
    if length n == 0 then true else if ltb (length h) (length n) then false else any_window h n

abbrev any_term : (Str → Bool) → List Str → Bool
any_term test [] = false
any_term test (t ∷ terms) = test t || any_term test terms

-- str::contains is the search for the needle's bytes.
unfoldable pub filename_matches_terms : Std → Option Str → List Str → Bool
unfolding contains_ignore_ascii_case
filename_matches_terms std none terms_lower = false
filename_matches_terms std (some filename) terms_lower =
    if all_ascii filename
    then any_term (contains_ignore_ascii_case filename) terms_lower
    else any_term (λ t. occurs (as_bytes t) (as_bytes (Std.to_lowercase std filename))) terms_lower

zip_all-starts :
    (w n : List ℕ)
    → ltb (length w) (length n) ≡ false
    → zip_all w n ≡ starts n (map to_ascii_lowercase w)
zip_all-starts [] [] h = refl
zip_all-starts [] (b ∷ n) h = absurd (ground arith)
zip_all-starts (a ∷ w) [] h = refl
zip_all-starts (a ∷ w) (b ∷ n) h = let ih = zip_all-starts w n (ground arith) in ground arith

length-map_lower : (h : List ℕ) → length (map to_ascii_lowercase h) ≡ length h
length-map_lower [] = refl
length-map_lower (a ∷ h) = ap suc (length-map_lower h)

any_window-occurs :
    (h : List ℕ) (b : ℕ) (n : List ℕ)
    → any_window h (b ∷ n) ≡ occurs (b ∷ n) (map to_ascii_lowercase h)
any_window-occurs [] b n = refl
any_window-occurs (a ∷ h) b n = elim (Bool-cases (ltb (length (a ∷ h)) (length (b ∷ n)))) [
  | inl short ↦
      let le = occurs-length (b ∷ n) (map to_ascii_lowercase (a ∷ h)) in
      let len = length-map_lower (a ∷ h) in rw short (ground arith)
  | inr long ↦
      let ih = any_window-occurs h b n in
      let here = zip_all-starts (a ∷ h) (b ∷ n) long in rw (long, ih, here) refl
]

starts_anywhere : (h : List ℕ) → occurs [] h ≡ true
starts_anywhere [] = refl
starts_anywhere (a ∷ h) = refl

-- The search without a copy finds a needle exactly if it stands in the lowered bytes.
pub contains_ignore_ascii_case-occurs :
    (haystack needle_lower : Str)
    → contains_ignore_ascii_case haystack needle_lower
      ≡ occurs (as_bytes needle_lower) (map to_ascii_lowercase (as_bytes haystack))
unfolding contains_ignore_ascii_case
contains_ignore_ascii_case-occurs haystack needle_lower =
    split (as_bytes haystack) (as_bytes needle_lower)
  where
    split :
        (h n : List ℕ)
        → (if length n == 0
            then true
            else if ltb (length h) (length n)
            then false
            else any_window h n)
          ≡ occurs n (map to_ascii_lowercase h)
    split h [] = sym (starts_anywhere (map to_ascii_lowercase h))
    split h (b ∷ n) = elim (Bool-cases (ltb (length h) (length (b ∷ n)))) [
      | inl short ↦
          let le = occurs-length (b ∷ n) (map to_ascii_lowercase h) in
          let len = length-map_lower h in rw short (ground arith)
      | inr long ↦
          let some_bytes : (length (b ∷ n) == 0) ≡ false = ground arith in
          rw (some_bytes, long) (any_window-occurs h b n)
    ]
