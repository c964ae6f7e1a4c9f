-- ===== src/Query/Planner/Prefix.antt =====
-- src/query/planner.rs, extract_regex_prefix: the text that every match of a pattern starts with.
use fxi.Base.{
  ℕ, Bool, true, false, ◌&&◌, ◌||◌, Option, none, some, [], ◌∷◌, ◌++◌, leb, ◌==◌, if◌then◌else◌,
}
use fxi.Query.Text.{Str, byte_len}

-- An alternation that is not escaped.
unfoldable pub has_alternation : (escaped : Bool) → Str → Bool
has_alternation escaped [] = false
has_alternation true (c ∷ s) = has_alternation false s
has_alternation false (c ∷ s) = c == b'|' || has_alternation (c == 0x5c) s

abbrev pub is_ascii_alphanumeric : ℕ → Bool
is_ascii_alphanumeric c =
    leb b'0' c && leb c b'9' || (leb b'A' c && leb c b'Z' || leb b'a' c && leb c b'z')

-- The character that an escape stands for, if the prefix goes on.
abbrev pub unescape : ℕ → Option ℕ
unescape c =
    if c == b'n'
    then some 10
    else if c == b't'
    then some 9
    else if c == b'r'
    then some 13
    else if is_ascii_alphanumeric c
    then none
    else some c

abbrev pub drop_last : Str → Str
drop_last [] = []
drop_last (c ∷ []) = []
drop_last (c ∷ d ∷ s) = c ∷ drop_last (d ∷ s)

abbrev pub is_optional : ℕ → Bool
is_optional c = c == b'*' || (c == b'?' || c == b'{')

abbrev pub is_meta : ℕ → Bool
is_meta c =
    c == b'.'
    || (c == b'+'
        || (c == b'[' || (c == b']' || (c == b'(' || (c == b')' || (c == b'}' || c == b'$'))))))

-- The loop over the characters; `prefix` is what was collected.
unfoldable pub prefix_loop : Str → Str → Str
prefix_loop prefix [] = prefix
prefix_loop prefix (c ∷ []) =
    if c == 0x5c
    then prefix
    else if is_optional c
    then drop_last prefix
    else if is_meta c
    then prefix
    else prefix ++ (c ∷ [])
prefix_loop prefix (c ∷ d ∷ s) =
    let literal_escape = λ (e : ℕ). prefix_loop (prefix ++ (e ∷ [])) s in
    let plain = prefix_loop (prefix ++ (c ∷ [])) (d ∷ s) in
    if c == 0x5c
    then (elim (unescape d) [ none ↦ prefix | some e ↦ literal_escape e ])
    else if is_optional c
    then drop_last prefix
    else if is_meta c
    then prefix
    else plain

abbrev pub without_caret : Str → Str
without_caret [] = []
without_caret (c ∷ s) = if c == b'^' then s else c ∷ s

unfoldable pub extract_regex_prefix : Str → Option Str
unfolding has_alternation prefix_loop
extract_regex_prefix pattern =
    let prefix = prefix_loop [] (without_caret pattern) in
    if has_alternation false pattern
    then none
    else if leb 3 (byte_len prefix)
    then some prefix
    else none
