-- ===== src/Query/Content/Proximity.antt =====
-- src/query/executor.rs, find_proximity_matches_static: the terms of a `near` query, lines apart.
use fxi.Base.{
  ℕ, zero, suc, ◌+◌, ◌-◌, Bool, true, false, ◌&&◌, ◌||◌, Option, none, some, List, [], ◌∷◌, ◌++◌,
  map, length, get_elem?, get_or, ltb, leb, ◌==◌, if◌then◌else◌,
}
use fxi.Query.Text.{Str, Std, byte_len, contains_char}
use fxi.Query.Content.{lines, no_items, Memmem, Match}
use fxi.Utils.Tokenizer.{u32, as_bytes, all_ascii, to_ascii_lowercase}

abbrev pub has_line_break : List Str → Bool
has_line_break [] = false
has_line_break (t ∷ ts) = contains_char b'\n' t || contains_char b'\r' t || has_line_break ts

abbrev pub last_is : List ℕ → ℕ → Bool
last_is [] n = false
last_is (x ∷ []) n = x == n
last_is (x ∷ y ∷ xs) n = last_is (y ∷ xs) n

-- The numbers of the lines in which a term occurs, and the columns of its first place in each.
pub record TermScan : Type 0 where
  pub line_cursor : ℕ
  pub lines_with_term : List ℕ
  pub cols : List ℕ

-- `while line_cursor + 1 < line_starts.len() && line_starts[line_cursor + 1] <= pos`
abbrev pub move_cursor : (fuel : ℕ) → List ℕ → (pos line_cursor : ℕ) → ℕ
move_cursor zero line_starts pos line_cursor = line_cursor
move_cursor (suc fuel) line_starts pos line_cursor =
    let rest = move_cursor fuel line_starts pos (line_cursor + 1) in
    if ltb (line_cursor + 1) (length line_starts)
      && leb (get_or line_starts (line_cursor + 1) 0) pos
    then rest
    else line_cursor

unfoldable pub on_hit : List ℕ → (pos : ℕ) → TermScan → TermScan
on_hit line_starts pos s =
    let cursor = move_cursor (length line_starts) line_starts pos s.line_cursor in
    let line_num = u32 (cursor + 1) in
    if last_is s.lines_with_term line_num then record s { line_cursor = cursor } else record {
      line_cursor = cursor;
      lines_with_term = s.lines_with_term ++ (line_num ∷ []);
      cols = s.cols ++ ((pos - get_or line_starts cursor 0) ∷ []);
    }

abbrev pub on_hits : List ℕ → List ℕ → TermScan → TermScan
on_hits line_starts [] s = s
on_hits line_starts (pos ∷ hits) s = on_hits line_starts hits (on_hit line_starts pos s)

-- other_term_lines[partition_point(l < lo)] <= hi
abbrev pub in_window : (lo hi : ℕ) → List ℕ → Bool
in_window lo hi [] = false
in_window lo hi (l ∷ ls) = let rest = in_window lo hi ls in if ltb l lo then rest else leb l hi

abbrev pub all_in_window : (lo hi : ℕ) → List (List ℕ) → Bool
all_in_window lo hi [] = true
all_in_window lo hi (ls ∷ others) = in_window lo hi ls && all_in_window lo hi others

abbrev pub push_near : Option Str → (first_line pos len : ℕ) → List Match → List Match
push_near none first_line pos len rest = rest
push_near (some line) first_line pos len rest =
    record { line_number = first_line; line = line; start = pos; end = pos + len } ∷ rest

-- The lines of the first term with their columns, and the lines of the other terms.
unfoldable pub near_lines :
    List Str → (distance len : ℕ) → List ℕ → List ℕ → List (List ℕ) → List Match
near_lines lines distance len [] cols others = []
near_lines lines distance len (first_line ∷ firsts) [] others = []
near_lines lines distance len (first_line ∷ firsts) (pos ∷ cols) others =
    let rest = near_lines lines distance len firsts cols others in
    let all_within_distance =
      all_in_window (first_line - distance) (u32 (first_line + distance)) others in
    if all_within_distance
    then push_near (get_elem? lines (first_line - 1)) first_line pos len rest
    else rest

abbrev pub add_lines : List ℕ → Option (List (List ℕ)) → Option (List (List ℕ))
add_lines ls none = none
add_lines ls (some rest) = some (ls ∷ rest)

module _ (std : Std) (mm : Memmem) where
  abbrev pub lower_content : Str → Str
  lower_content content =
      if all_ascii content then map to_ascii_lowercase content else Std.to_lowercase std content

  abbrev pub scan_term : List ℕ → List ℕ → Str → TermScan
  scan_term line_starts lower_bytes term_lower =
      on_hits line_starts (Memmem.find_iter mm (as_bytes term_lower) lower_bytes)
        (record { line_cursor = 0; lines_with_term = []; cols = [] })

  -- The lines of each term; `none` when a term is nowhere.
  abbrev pub lines_of_terms : List ℕ → List ℕ → List Str → Option (List (List ℕ))
  lines_of_terms line_starts lower_bytes [] = some []
  lines_of_terms line_starts lower_bytes (t ∷ ts) =
      let s = scan_term line_starts lower_bytes t in
      let rest = lines_of_terms line_starts lower_bytes ts in
      if no_items s.lines_with_term then none else add_lines s.lines_with_term rest

  abbrev pub near_others : Str → (distance len : ℕ) → TermScan → Option (List (List ℕ)) → List Match
  near_others content distance len first none = []
  near_others content distance len first (some others) =
      if no_items first.lines_with_term
      then []
      else near_lines (lines content) distance len first.lines_with_term first.cols others

  unfoldable pub find_proximity_matches : Str → List Str → (distance : ℕ) → List Match
  unfolding lines on_hit near_lines
  find_proximity_matches content [] distance = []
  find_proximity_matches content (term ∷ terms) distance =
      let first_lower = Std.to_lowercase std term in
      let terms_lower = map (Std.to_lowercase std) terms in
      let lower_bytes = as_bytes (lower_content content) in
      let line_starts = 0 ∷ map (λ (nl : ℕ). nl + 1) (Memmem.memchr_iter mm b'\n' lower_bytes) in
      if has_line_break (first_lower ∷ terms_lower)
      then []
      else near_others content distance (byte_len term)
          (scan_term line_starts lower_bytes first_lower)
          (lines_of_terms line_starts lower_bytes terms_lower)
