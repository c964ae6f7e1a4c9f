-- ===== src/Query/Content/Matches.antt =====
-- src/query/executor.rs, has_literal_match, find_literal_matches_static and
-- find_regex_matches_static.
use fxi.Base.{
  ℕ, zero, suc, ◌+◌, ◌-◌, Bool, true, false, not, ◌&&◌, ◌||◌, Option, none, some, List, [], ◌∷◌,
  ◌++◌, map, length, drop, get_or, ltb, ◌==◌, if◌then◌else◌,
}
use fxi.Query.Text.{Str, Std, byte_len, contains_char}
use fxi.Query.Content.{lines, found, Memmem, Regexes, Match}
use fxi.Utils.Tokenizer.{u32, as_bytes, all_ascii, to_ascii_lowercase, slice_of}

-- Neither the searched text nor the needle has anything but ASCII, and the needle no line break.
abbrev pub is_fast : Str → Str → Str → Bool
is_fast content needle needle_lower =
    all_ascii content
    && (all_ascii needle
        && (not (contains_char b'\n' needle_lower) && not (contains_char b'\r' needle_lower)))

-- The state of the loop over the places of a needle.
pub record LineScan : Type 0 where
  pub line_start : ℕ
  pub line_num : ℕ
  pub last_matched_line : ℕ
  pub matches : List Match

-- The next turn of the loop that looks for line breaks, if there is one.
abbrev pub at_break : Option ℕ → LineScan → (LineScan → LineScan) → LineScan
at_break none s next = s
at_break (some nl) s next =
    next (record s { line_start = s.line_start + (nl + 1); line_num = u32 (s.line_num + 1) })

abbrev pub or_length : Option ℕ → ℕ → ℕ → ℕ
or_length none line_start len = len
or_length (some nl) line_start len = line_start + nl

abbrev pub add_match : Option ℕ → ℕ → Str → ℕ → List Match → List Match
add_match none line_num line len rest = rest
add_match (some pos) line_num line len rest =
    record { line_number = u32 (line_num + 1); line = line; start = pos; end = pos + len } ∷ rest

module _ (mm : Memmem) where
  -- The loop over the line breaks in front of a match.
  abbrev pub advance : (fuel : ℕ) → List ℕ → (pos : ℕ) → LineScan → LineScan
  advance zero bytes pos s = s
  advance (suc fuel) bytes pos s =
      at_break (Memmem.memchr mm b'\n' (slice_of bytes s.line_start pos)) s
        (λ next. advance fuel bytes pos next)

  -- What the loop does once it is in the line of the match.
  abbrev pub report : List ℕ → (needle_len pos : ℕ) → LineScan → LineScan
  report bytes needle_len pos s =
      let line_end =
        or_length (Memmem.memchr mm b'\n' (drop s.line_start bytes)) s.line_start (length bytes) in
      let line_end' =
        if ltb s.line_start line_end && get_or bytes (line_end - 1) 0 == b'\r'
        then line_end - 1
        else line_end in
      let col = pos - s.line_start in
      let here : Match = record {
        line_number = s.line_num;
        line = slice_of bytes s.line_start line_end';
        start = col;
        end = col + needle_len;
      } in
      if s.line_num == s.last_matched_line
      then s
      else record s { last_matched_line = s.line_num; matches = s.matches ++ (here ∷ []) }

  abbrev pub scan_hits : List ℕ → (needle_len : ℕ) → List ℕ → LineScan → LineScan
  scan_hits bytes needle_len [] s = s
  scan_hits bytes needle_len (pos ∷ hits) s =
      scan_hits bytes needle_len hits
        (report bytes needle_len pos (advance (length bytes) bytes pos s))

  -- The ASCII fast path; the bytes of an ASCII text are its characters.
  unfoldable pub ascii_matches : Str → Str → Str → List Match
  ascii_matches content needle needle_lower =
      let hits =
        Memmem.find_iter mm (as_bytes needle_lower) (as_bytes (map to_ascii_lowercase content)) in
      let s =
        scan_hits (as_bytes content) (byte_len needle) hits
          (record { line_start = 0; line_num = 1; last_matched_line = 0; matches = [] }) in
      s.matches

  unfoldable pub exact_matches : Str → (line_num : ℕ) → List Str → List Match
  exact_matches needle line_num [] = []
  exact_matches needle line_num (line ∷ rest) =
      add_match (Memmem.find mm (as_bytes needle) (as_bytes line)) line_num line (byte_len needle)
        (exact_matches needle (line_num + 1) rest)

  module _ (std : Std) where
    abbrev pub lowered_line : Str → Str → Str
    lowered_line needle line =
        if all_ascii line && all_ascii needle
        then map to_ascii_lowercase line
        else Std.to_lowercase std line

    -- The lines of a text that is not ASCII; one that is shorter than the needle is passed over.
    unfoldable pub unicode_matches : Str → Str → (line_num : ℕ) → List Str → List Match
    unicode_matches needle needle_lower line_num [] = []
    unicode_matches needle needle_lower line_num (line ∷ lines) =
        let rest = unicode_matches needle needle_lower (line_num + 1) lines in
        if ltb (byte_len line) (byte_len needle_lower)
        then rest
        else add_match
            (Memmem.find mm (as_bytes needle_lower) (as_bytes (lowered_line needle line))) line_num
            line (byte_len needle) rest

    unfoldable pub find_literal_matches : Str → Str → (case_sensitive : Bool) → List Match
    unfolding lines exact_matches ascii_matches unicode_matches
    find_literal_matches content needle true = exact_matches needle 0 (lines content)
    find_literal_matches content needle false =
        let needle_lower = Std.to_lowercase std needle in
        if is_fast content needle needle_lower
        then ascii_matches content needle needle_lower
        else unicode_matches needle needle_lower 0 (lines content)

    unfoldable pub any_line : Str → List Str → Bool
    any_line needle_lower [] = false
    any_line needle_lower (line ∷ rest) =
        found (Memmem.find mm (as_bytes needle_lower) (as_bytes (Std.to_lowercase std line)))
        || any_line needle_lower rest

    unfoldable pub has_literal_match : Str → Str → Bool
    unfolding lines any_line
    has_literal_match content text =
        let needle_lower = Std.to_lowercase std text in
        if is_fast content text needle_lower
        then found
            (Memmem.find mm (as_bytes needle_lower) (as_bytes (map to_ascii_lowercase content)))
        else any_line needle_lower (lines content)

abbrev pub add_span : Option (ℕ × ℕ) → ℕ → Str → List Match → List Match
add_span none line_num line rest = rest
add_span (some (start, end)) line_num line rest =
    record { line_number = u32 (line_num + 1); line = line; start = start; end = end } ∷ rest

module _ (res : Regexes) where
  unfoldable pub regex_lines : Regexes.Regex res → (line_num : ℕ) → List Str → List Match
  regex_lines re line_num [] = []
  regex_lines re line_num (line ∷ rest) =
      add_span (Regexes.find res re line) line_num line (regex_lines re (line_num + 1) rest)

  unfoldable pub find_regex_matches : Str → Regexes.Regex res → List Match
  unfolding lines regex_lines
  find_regex_matches content re = regex_lines re 0 (lines content)
