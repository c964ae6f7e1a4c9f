-- ===== src/Utils/Tokenizer/Agreement.antt =====
-- The two loops find the same tokens at the same positions.
use fxi.Base.{
  ℕ, ◌+◌, ◌≡◌, refl, sym, ◌∙◌, ap, arith, Bool, true, false, List, [], ◌∷◌, ◌++◌, map, length, ltb,
  leb, ◌==◌, if◌then◌else◌, Bool-cases, inl, inr,
}
use fxi.Query.Text.{Str, Std, is_empty}
use fxi.Utils.Tokenizer.{
  Tokens, CharScan, CharType, upper, lower, digit, underscore, other, max_token_length, u32, encode,
  as_bytes, all_ascii, to_ascii_lowercase, is_ascii_lowercase, is_ascii_uppercase, is_ascii_digit,
  push_slice, push_token, end_token, push_char, on_char, classify_char, is_lower_type, scan_chars,
  extract_tokens_with_positions_simple, extract_tokens_with_positions,
  tokenize_query_with_positions,
}
use fxi.Utils.Tokenizer.Scans.{
  SliceScan, flush_slice, step_slice, scan_slices, finish, tokens_of_bytes-scan_slices,
}
use fxi.Utils.Tokenizer.Bytes.{
  and_true, map-lower_twice, all_ascii-lower, byte_len-lower, all_ascii-append, map-append,
  scan_slices-append, stop, encode_stops, encode_ascii, classify-wide,
}

module _ (std : Std)
    (lowers : (s : Str)
      → all_ascii s ≡ true
      → Std.to_lowercase std s ≡ map to_ascii_lowercase s) where
  push_slice-push_token :
      (slice : List ℕ) (word_pos : ℕ) (result : Tokens)
      → all_ascii slice ≡ true
      → push_slice slice word_pos result
        ≡ push_token std (map to_ascii_lowercase slice) word_pos result
  push_slice-push_token slice word_pos result h =
      let same =
        lowers (map to_ascii_lowercase slice) (all_ascii-lower slice h) ∙ map-lower_twice slice in
      rw (byte_len-lower slice h, same, h)
        (rw (and_true (leb (length slice) max_token_length)) refl)

  -- How the states of the two loops stand to each other.
  record Agrees (s : SliceScan) (c : CharScan) : Type 0 where
    token : c.current_token ≡ map to_ascii_lowercase s.slice
    ascii : all_ascii s.slice ≡ true
    prev : s.prev_was_lower ≡ is_lower_type c.prev_char_type
    pos : s.word_pos ≡ c.word_pos
    found : s.result ≡ c.result

  -- What ending a token leaves: no token, and the same tokens found.
  flush-end_token :
      (s : SliceScan) (c : CharScan)
      → Agrees s c
      → ((end_token std c).current_token ≡ [])
        × ((flush_slice s s.slice).word_pos ≡ (end_token std c).word_pos)
        × ((flush_slice s s.slice).result ≡ (end_token std c).result)
  flush-end_token s c a = go s.slice a.token a.ascii
    where
      go :
          (slice : List ℕ)
          → c.current_token ≡ map to_ascii_lowercase slice
          → all_ascii slice ≡ true
          → ((end_token std c).current_token ≡ [])
            × ((flush_slice s slice).word_pos ≡ (end_token std c).word_pos)
            × ((flush_slice s slice).result ≡ (end_token std c).result)
      go [] t h = rw t (refl, a.pos, a.found)
      go (b ∷ bs) t h = rw t (
        refl,
        ap (λ n. u32 (n + 1)) a.pos,
        push_slice-push_token (b ∷ bs) s.word_pos s.result h
            ∙ (λ i. push_token std (map to_ascii_lowercase (b ∷ bs)) (a.pos i) (a.found i)),
      )

  stop-Agrees :
      (s : SliceScan) (c : CharScan) (t : CharType)
      → Agrees s c
      → is_lower_type t ≡ false
      → Agrees (stop s) (record (end_token std c) { prev_char_type = t })
  stop-Agrees s c t a h =
      let (empty, pos, found) = flush-end_token s c a in
      record { token = empty; ascii = refl; prev = sym h; pos = pos; found = found }

  push-Agrees :
      (b ch : ℕ) (s : SliceScan) (c : CharScan) (t : CharType) (prev : Bool)
      → Agrees s c
      → ltb b 128 ≡ true
      → ch ≡ to_ascii_lowercase b
      → prev ≡ is_lower_type t
      → Agrees
          (record s { slice = s.slice ++ (b ∷ []); prev_was_lower = prev })
          (record (push_char std ch c) { prev_char_type = t })
  push-Agrees b ch s c t prev a small low h = record {
    token = rw (a.token, map-append to_ascii_lowercase s.slice (b ∷ []), low) refl;
    ascii = rw (all_ascii-append s.slice (b ∷ [])) (ground (arith, a.ascii));
    prev = h;
    pos = a.pos;
    found = a.found;
  }

  split-Agrees :
      (b ch : ℕ) (s : SliceScan) (c : CharScan) (t : CharType) (prev : Bool)
      → Agrees s c
      → ltb b 128 ≡ true
      → ch ≡ to_ascii_lowercase b
      → prev ≡ is_lower_type t
      → Agrees
          (record (flush_slice s s.slice) { slice = b ∷ []; prev_was_lower = prev })
          (record (push_char std ch (end_token std c)) { prev_char_type = t })
  split-Agrees b ch s c t prev a small low h =
      let (empty, pos, found) = flush-end_token s c a in
      record {
        token = rw (empty, low) refl;
        ascii = ground arith;
        prev = h;
        pos = pos;
        found = found;
      }

  char-Agrees :
      (ch : ℕ) (s : SliceScan) (c : CharScan)
      → Agrees s c
      → ltb ch 128 ≡ true
      → Agrees
          (step_slice ch s)
          (record (on_char std (classify_char ch) ch c) { prev_char_type = classify_char ch })
  unfolding classify_char on_char step_slice
  char-Agrees ch s c a small = elim (Bool-cases (is_ascii_uppercase ch)) [
    | inl up ↦
        let not_low : is_ascii_lowercase ch ≡ false = ground arith in
        let raised : ch + 32 ≡ to_ascii_lowercase ch = ground arith in
        elim (Bool-cases (is_lower_type c.prev_char_type)) [
          | inl after ↦
              simp (up, not_low, a.prev, after)
                (split-Agrees ch (ch + 32) s c upper false a small raised refl)
          | inr start ↦
              simp (up, not_low, a.prev, start)
                (push-Agrees ch (ch + 32) s c upper false a small raised refl)
        ]
    | inr not_up ↦
        let same : ch ≡ to_ascii_lowercase ch = ground arith in
        elim (Bool-cases (is_ascii_lowercase ch)) [
          | inl low ↦ rw (not_up, low) (push-Agrees ch ch s c lower true a small same refl)
          | inr not_low ↦ elim (Bool-cases (is_ascii_digit ch)) [
            | inl number ↦
                rw (not_up, not_low, number) (push-Agrees ch ch s c digit false a small same refl)
            | inr no_digit ↦ elim (Bool-cases (ch == b'_')) [
              | inl is ↦ rw (not_up, not_low, no_digit, is) (stop-Agrees s c underscore a refl)
              | inr unlike ↦ rw (not_up, not_low, no_digit, unlike) (stop-Agrees s c other a refl)
            ]
          ]
        ]
  ]

  -- A character that is not ASCII ends the token.
  wide-Agrees :
      (ch : ℕ) (s : SliceScan) (c : CharScan)
      → Agrees s c
      → ltb ch 128 ≡ false
      → Agrees
          (scan_slices (encode ch) s)
          (record (on_char std (classify_char ch) ch c) { prev_char_type = classify_char ch })
  unfolding on_char
  wide-Agrees ch s c a wide =
      let is_other = classify-wide ch wide in
      rw (encode_stops ch s wide, is_other) (stop-Agrees s c other a refl)

  scan-Agrees :
      (content : Str) (s : SliceScan) (c : CharScan)
      → Agrees s c
      → Agrees (scan_slices (as_bytes content) s) (scan_chars std content c)
  scan-Agrees [] s c a = a
  scan-Agrees (ch ∷ rest) s c a =
      let next = record (on_char std (classify_char ch) ch c) {
        prev_char_type = classify_char ch;
      } in
      rw (scan_slices-append (encode ch) (as_bytes rest) s) (elim (Bool-cases (ltb ch 128)) [
        | inl small ↦
            rw (encode_ascii ch small)
              (scan-Agrees rest (step_slice ch s) next (char-Agrees ch s c a small))
        | inr wide ↦ scan-Agrees rest (scan_slices (encode ch) s) next (wide-Agrees ch s c a wide)
      ])

  finish-Agrees :
      (s : SliceScan) (c : CharScan)
      → Agrees s c
      → finish s s.slice ≡ (
          if is_empty c.current_token
          then c.result
          else push_token std c.current_token c.word_pos c.result)
  finish-Agrees s c a = go s.slice a.token a.ascii
    where
      go :
          (slice : List ℕ)
          → c.current_token ≡ map to_ascii_lowercase slice
          → all_ascii slice ≡ true
          → finish s slice ≡ (
              if is_empty c.current_token
              then c.result
              else push_token std c.current_token c.word_pos c.result)
      go [] t h = rw t a.found
      go (b ∷ bs) t h = rw t (
          push_slice-push_token (b ∷ bs) s.word_pos s.result h
          ∙ (λ i. push_token std (map to_ascii_lowercase (b ∷ bs)) (a.pos i) (a.found i)))

  -- If to_lowercase lowers the letters of ASCII strings and keeps their other characters, then for
  -- every text extract_tokens_with_positions, which reads short texts by characters and long ones by
  -- bytes, gives the tokens and positions that tokenize_query_with_positions gives.
  pub extract_tokens_with_positions-tokenize_query_with_positions :
      (content : Str)
      → extract_tokens_with_positions std content ≡ tokenize_query_with_positions std content
  unfolding extract_tokens_with_positions tokenize_query_with_positions
      extract_tokens_with_positions_simple
  extract_tokens_with_positions-tokenize_query_with_positions content =
      let s : SliceScan = record {
        slice = [];
        prev_was_lower = false;
        word_pos = 0;
        result = [];
      } in
      let c : CharScan = record {
        current_token = [];
        prev_char_type = other;
        word_pos = 0;
        result = [];
      } in
      let start : Agrees s c = record {
        token = refl;
        ascii = refl;
        prev = refl;
        pos = refl;
        found = refl;
      } in
      let end = scan-Agrees content s c start in
      elim (Bool-cases (ltb (length (as_bytes content)) 256)) [
        | inl short ↦ rw short refl
        | inr long ↦ rw long (
            tokens_of_bytes-scan_slices (as_bytes content)
            ∙ finish-Agrees (scan_slices (as_bytes content) s) (scan_chars std content c) end)
      ]
