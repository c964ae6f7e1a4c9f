-- ===== src/Query/Content.antt =====
-- src/query/executor.rs, has_match and verify_content_static: whether a content matches a
-- verification, and the matches in it.
pub mod Matches
pub mod Proximity
pub mod Verify
pub mod Lines
pub mod Hits
pub mod Agreement
pub mod Presence
pub mod Runs
use fxi.Base.{
  ℕ, ◌+◌, ◌-◌, ◌<◌, ◌≡◌, Bool, true, false, not, ◌&&◌, ◌||◌, Option, none, some, List, [], ◌∷◌,
  ◌++◌, map, length, ltb, ◌==◌, if◌then◌else◌,
}
use fxi.Query.Text.{Str, Std, push_first, contains_char}
use fxi.Utils.Tokenizer.{as_bytes, all_ascii, to_ascii_lowercase}

-- content.lines(): what stands before each line break, without a carriage return in front of the
-- break; nothing for an empty rest.
abbrev pub starts_line_feed : Str → Bool
starts_line_feed [] = false
starts_line_feed (d ∷ t) = d == b'\n'

unfoldable pub lines : Str → List Str
lines [] = []
lines (c ∷ s) =
    let rest = lines s in
    if c == b'\n'
    then [] ∷ rest
    else if c == b'\r' && starts_line_feed s
    then rest
    else push_first c rest

-- The bytes of a needle in a haystack.
abbrev pub starts : List ℕ → List ℕ → Bool
starts [] hay = true
starts (n ∷ needle) [] = false
starts (n ∷ needle) (h ∷ hay) = n == h && starts needle hay

abbrev pub occurs : List ℕ → List ℕ → Bool
occurs needle [] = starts needle []
occurs needle (h ∷ hay) = starts needle (h ∷ hay) || occurs needle hay

abbrev pub found : {A : Type 0} → Option A → Bool
found none = false
found (some a) = true

abbrev pub no_items : {A : Type 0} → List A → Bool
no_items [] = true
no_items (x ∷ xs) = false

-- The searches of the `memchr` package: the first place of a byte and all its
-- places, and the first place of a needle
-- and all its places one behind the other.
pub record Memmem : Type 0 where
  pub memchr : ℕ → (hay : List ℕ) → Option ℕ
  pub memchr_iter : ℕ → (hay : List ℕ) → List ℕ
  pub find : (needle hay : List ℕ) → Option ℕ
  pub find_iter : (needle hay : List ℕ) → List ℕ
  pub memchr-length : (b : ℕ) (hay : List ℕ) (n : ℕ) → memchr b hay ≡ some n → n < length hay
  pub found-find : (needle hay : List ℕ) → found (find needle hay) ≡ occurs needle hay
  pub no_items-find_iter :
      (needle hay : List ℕ) → no_items (find_iter needle hay) ≡ not (occurs needle hay)

-- The `regex` package and the cache of compiled patterns; a match in a text is its start and end.
pub record Regexes : Type 1 where
  pub Regex : Type 0
  pub get_or_compile : Str → Option Regex
  pub is_match : Regex → Str → Bool
  pub find : Regex → Str → Option (ℕ × ℕ)

-- A line's number and text, and where the match starts and ends in it.
pub record Match : Type 0 where
  pub line_number : ℕ
  pub line : Str
  pub start : ℕ
  pub end : ℕ
