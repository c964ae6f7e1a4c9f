-- ===== src/Query/Content/Hits.antt =====
-- The loop over the places of a needle reports a match as soon as there is a place.
use fxi.Base.{
  ℕ, zero, suc, ◌+◌, ◌-◌, ◌^◌, ◌≤◌, ◌<◌, ◌≡◌, refl, sym, subst, ◌∙◌, arith, false, not, Option,
  none, some, List, [], ◌∷◌, ◌++◌, map, length, drop, Bool-cases, inl, inr, ◌==◌,
}
use fxi.Query.Text.{Str, byte_len}
use fxi.Query.Content.{no_items, Memmem, Match, occurs}
use fxi.Query.Content.Matches.{LineScan, at_break, advance, report, scan_hits, ascii_matches}
use fxi.Utils.Tokenizer.{u32, take, as_bytes, slice_of, to_ascii_lowercase}

-- The line number, which the loop over line breaks does not turn back to 0, and what that loop
-- leaves alone.
abbrev IsCounted : (bound last : ℕ) → List Match → LineScan → Type 0
IsCounted bound last m s =
    (1 ≤ s.line_num) × (s.line_num ≤ bound) × (s.last_matched_line ≡ last) × (s.matches ≡ m)

at_break_lem :
    (P : LineScan → Type 0) (place : Option ℕ) (s : LineScan) (next : LineScan → LineScan)
    → (place ≡ none → P s)
    → ((nl : ℕ)
        → place ≡ some nl
        → P (
            next
              (record s { line_start = s.line_start + (nl + 1); line_num = u32 (s.line_num + 1) })))
    → P (at_break place s next)
at_break_lem P none s next stop more = stop refl
at_break_lem P (some nl) s next stop more = more nl refl

length-take : (n : ℕ) (xs : List ℕ) → length (take n xs) ≤ n
length-take zero xs = omega arith
length-take (suc n) [] = omega arith
length-take (suc n) (x ∷ xs) = omega (arith, length-take n xs)

no_items_last : {A : Type 0} (xs : List A) (x : A) → no_items (xs ++ (x ∷ [])) ≡ false
no_items_last [] x = refl
no_items_last (y ∷ xs) x = refl

module _ (mm : Memmem) where
  advance-IsCounted :
      (fuel bound last : ℕ) (m : List Match) (bytes : List ℕ) (pos : ℕ) (s : LineScan)
      → bound + fuel < 2 ^ 32
      → IsCounted bound last m s
      → IsCounted (bound + fuel) last m (advance mm fuel bytes pos s)
  advance-IsCounted zero bound last m bytes pos s small (a, b, c, d) = (a, omega arith, c, d)
  advance-IsCounted (suc fuel) bound last m bytes pos s small (a, b, c, d) =
      at_break_lem (IsCounted (bound + suc fuel) last m)
        (Memmem.memchr mm b'\n' (slice_of bytes s.line_start pos)) s
        (λ next. advance mm fuel bytes pos next) (λ stop. (a, omega arith, c, d))
        (λ nl. λ more.
          subst
            (λ b. IsCounted b last m (
              advance mm fuel bytes pos (record s {
                line_start = s.line_start + (nl + 1);
                line_num = u32 (s.line_num + 1);
              })))
            (omega arith)
            (advance-IsCounted fuel (bound + 1) last m bytes pos
              (record s { line_start = s.line_start + (nl + 1); line_num = u32 (s.line_num + 1) })
              (omega arith) (ground arith, ground arith, c, d)))

  advance-matches :
      (fuel : ℕ) (bytes : List ℕ) (pos : ℕ) (s : LineScan)
      → (advance mm fuel bytes pos s).matches ≡ s.matches
  advance-matches zero bytes pos s = refl
  advance-matches (suc fuel) bytes pos s =
      at_break_lem (λ t. t.matches ≡ s.matches)
        (Memmem.memchr mm b'\n' (slice_of bytes s.line_start pos)) s
        (λ next. advance mm fuel bytes pos next) (λ stop. refl)
        (λ nl. λ more.
          advance-matches fuel bytes pos
            (record s { line_start = s.line_start + (nl + 1); line_num = u32 (s.line_num + 1) }))

  memchr_empty :
      (hay : List ℕ)
      → length hay ≡ 0
      → (place : Option ℕ) → Memmem.memchr mm b'\n' hay ≡ place
      → Memmem.memchr mm b'\n' hay ≡ none
  memchr_empty hay empty none e = e
  memchr_empty hay empty (some n) e = absurd (omega (arith, Memmem.memchr-length mm b'\n' hay n e))

  -- With a turn for every byte in front of the place the loop ends because no line break is left
  -- in front of it.
  advance_stops :
      (fuel : ℕ) (bytes : List ℕ) (pos : ℕ) (s : LineScan)
      → pos ≤ s.line_start + fuel
      → Memmem.memchr mm b'\n' (slice_of bytes (advance mm fuel bytes pos s).line_start pos) ≡ none
  advance_stops zero bytes pos s enough =
      memchr_empty (slice_of bytes s.line_start pos)
        (omega (arith, length-take (pos - s.line_start) (drop s.line_start bytes)))
        (Memmem.memchr mm b'\n' (slice_of bytes s.line_start pos)) refl
  advance_stops (suc fuel) bytes pos s enough =
      at_break_lem (λ t. Memmem.memchr mm b'\n' (slice_of bytes t.line_start pos) ≡ none)
        (Memmem.memchr mm b'\n' (slice_of bytes s.line_start pos)) s
        (λ next. advance mm fuel bytes pos next) (λ stop. stop)
        (λ nl. λ more.
          advance_stops fuel bytes pos
            (record s { line_start = s.line_start + (nl + 1); line_num = u32 (s.line_num + 1) })
            (omega arith))

  report_grows :
      (bytes : List ℕ) (needle_len pos : ℕ) (s : LineScan)
      → no_items s.matches ≡ false
      → no_items (report mm bytes needle_len pos s).matches ≡ false
  report_grows bytes needle_len pos s h = elim (Bool-cases (s.line_num == s.last_matched_line)) [
    | inl same ↦ rw same h
    | inr other ↦ rw other (no_items_last s.matches _)
  ]

  scan_grows :
      (bytes : List ℕ) (needle_len : ℕ) (hits : List ℕ) (s : LineScan)
      → no_items s.matches ≡ false
      → no_items (scan_hits mm bytes needle_len hits s).matches ≡ false
  scan_grows bytes needle_len [] s h = h
  scan_grows bytes needle_len (pos ∷ hits) s h =
      let before = advance mm (length bytes) bytes pos s in
      scan_grows bytes needle_len hits (report mm bytes needle_len pos before) (
        report_grows bytes needle_len pos before
          (subst (λ t. no_items t ≡ false) (sym (advance-matches (length bytes) bytes pos s)) h))

  first_report :
      (bytes : List ℕ) (needle_len pos : ℕ) (s : LineScan)
      → (s.line_num == s.last_matched_line) ≡ false
      → no_items (report mm bytes needle_len pos s).matches ≡ false
  first_report bytes needle_len pos s other = rw other (no_items_last s.matches _)

  pub no_items-scan_hits :
      (bytes : List ℕ) (needle_len : ℕ) (hits : List ℕ)
      → 1 + length bytes < 2 ^ 32
      → no_items (
          LineScan.matches (
            scan_hits mm bytes needle_len hits
              (record { line_start = 0; line_num = 1; last_matched_line = 0; matches = [] })))
        ≡ no_items hits
  no_items-scan_hits bytes needle_len [] small = refl
  no_items-scan_hits bytes needle_len (pos ∷ hits) small =
      let start : LineScan = record {
        line_start = 0;
        line_num = 1;
        last_matched_line = 0;
        matches = [];
      } in
      let before = advance mm (length bytes) bytes pos start in
      let counted =
        advance-IsCounted (length bytes) 1 0 [] bytes pos start small
          (omega arith, omega arith, refl, refl) in
      scan_grows bytes needle_len hits (report mm bytes needle_len pos before)
        (first_report bytes needle_len pos before (ground (arith, counted)))

  pub no_items-ascii_matches :
      (content needle needle_lower : Str)
      → 1 + length (as_bytes content) < 2 ^ 32
      → no_items (ascii_matches mm content needle needle_lower)
        ≡ not (occurs (as_bytes needle_lower) (as_bytes (map to_ascii_lowercase content)))
  unfolding ascii_matches
  no_items-ascii_matches content needle needle_lower small =
      no_items-scan_hits (as_bytes content) (byte_len needle)
        (Memmem.find_iter mm (as_bytes needle_lower) (as_bytes (map to_ascii_lowercase content)))
        small
      ∙ Memmem.no_items-find_iter mm (as_bytes needle_lower)
          (as_bytes (map to_ascii_lowercase content))
