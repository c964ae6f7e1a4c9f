-- ===== src/Utils/Tokenizer.antt =====
-- src/utils/tokenizer.rs: the tokens of a text and their positions, for short texts character by
-- character and for long ones byte by byte.
pub mod Scans
pub mod Bytes
pub mod Agreement
pub mod Numbered
use fxi.Base.{
  ℕ, zero, suc, ◌+◌, ◌-◌, ◌/◌, ◌%◌, ◌^◌, Bool, true, false, not, ◌&&◌, ◌||◌, Option, none, some,
  List, [], ◌∷◌, ◌++◌, map, drop, length, ltb, leb, ◌==◌, if◌then◌else◌,
}
use fxi.Base.Keys.{Eq, find, put}
use fxi.Query.Text.{Str, Std, byte_len, is_empty, str_eq}

abbrev pub max_token_length : ℕ
max_token_length = 128

abbrev pub u32 : ℕ → ℕ
u32 n = n % 2 ^ 32

-- The bytes of a string, in UTF-8.
unfoldable pub encode : ℕ → List ℕ
encode c =
    if ltb c 0x80
    then c ∷ []
    else if ltb c 0x800
    then (0xc0 + c / 64) ∷ (0x80 + c % 64) ∷ []
    else if ltb c 0x10000
    then (0xe0 + c / 4096) ∷ (0x80 + c / 64 % 64) ∷ (0x80 + c % 64) ∷ []
    else (0xf0 + c / 262144) ∷ (0x80 + c / 4096 % 64) ∷ (0x80 + c / 64 % 64) ∷ (0x80 + c % 64) ∷ []

abbrev pub as_bytes : Str → List ℕ
as_bytes [] = []
as_bytes (c ∷ s) = encode c ++ as_bytes s

abbrev pub is_ascii_lowercase : ℕ → Bool
is_ascii_lowercase b = leb 97 b && leb b 122

abbrev pub is_ascii_uppercase : ℕ → Bool
is_ascii_uppercase b = leb 65 b && leb b 90

abbrev pub is_ascii_digit : ℕ → Bool
is_ascii_digit b = leb 48 b && leb b 57

abbrev pub to_ascii_lowercase : ℕ → ℕ
to_ascii_lowercase b = if is_ascii_uppercase b then b + 32 else b

-- slice.iter().all(|&b| b < 128)
abbrev pub all_ascii : List ℕ → Bool
all_ascii [] = true
all_ascii (b ∷ bs) = ltb b 128 && all_ascii bs

abbrev pub take : {A : Type 0} → ℕ → List A → List A
take zero xs = []
take (suc n) [] = []
take (suc n) (x ∷ xs) = x ∷ take n xs

-- &bytes[start..end], whose bounds the loops keep in order
abbrev pub slice_of : List ℕ → ℕ → ℕ → List ℕ
slice_of bytes start end = take (end - start) (drop start bytes)

abbrev pub Tokens : Type 0
Tokens = List (Str × ℕ)

-- The state of the loop over bytes.
pub record ByteScan : Type 0 where
  pub token_start : Option ℕ
  pub prev_was_lower : Bool
  pub word_pos : ℕ
  pub result : Tokens

-- A string of ASCII bytes has these as its characters.
abbrev pub push_slice : List ℕ → ℕ → Tokens → Tokens
push_slice slice word_pos result =
    if leb 2 (length slice) && (leb (length slice) max_token_length && all_ascii slice)
    then result ++ ((map to_ascii_lowercase slice, word_pos) ∷ [])
    else result

abbrev pub flush_bytes : List ℕ → ℕ → Option ℕ → ByteScan → ByteScan
flush_bytes bytes i none s = s
flush_bytes bytes i (some start) s = record s {
  result = push_slice (slice_of bytes start i) s.word_pos s.result;
  word_pos = u32 (s.word_pos + 1);
}

abbrev pub or_start : Option ℕ → ℕ → ℕ
or_start none i = i
or_start (some start) i = start

unfoldable pub step_byte : List ℕ → ℕ → ℕ → ByteScan → ByteScan
step_byte bytes i byte s =
    let is_lower = is_ascii_lowercase byte in
    let is_upper = is_ascii_uppercase byte in
    let is_digit = is_ascii_digit byte in
    let flushed = flush_bytes bytes i s.token_start s in
    if is_lower || (is_upper || is_digit)
    then if is_upper && s.prev_was_lower
      then record flushed { token_start = some i; prev_was_lower = is_lower }
      else record s { token_start = some (or_start s.token_start i); prev_was_lower = is_lower }
    else record flushed { token_start = none; prev_was_lower = false }

abbrev pub scan_bytes : List ℕ → ℕ → List ℕ → ByteScan → ByteScan
scan_bytes bytes i [] s = s
scan_bytes bytes i (b ∷ rest) s = scan_bytes bytes (i + 1) rest (step_byte bytes i b s)

abbrev pub last_slice : List ℕ → Option ℕ → ByteScan → Tokens
last_slice bytes none s = s.result
last_slice bytes (some start) s = push_slice (drop start bytes) s.word_pos s.result

unfoldable pub tokens_of_bytes : List ℕ → Tokens
unfolding step_byte
tokens_of_bytes bytes =
    let s =
      scan_bytes bytes 0 bytes
        (record { token_start = none; prev_was_lower = false; word_pos = 0; result = [] }) in
    last_slice bytes s.token_start s

pub data CharType : Type 0 where
  upper : CharType
  lower : CharType
  digit : CharType
  underscore : CharType
  other : CharType

unfoldable pub classify_char : ℕ → CharType
classify_char ch =
    if is_ascii_uppercase ch
    then upper
    else if is_ascii_lowercase ch
    then lower
    else if is_ascii_digit ch
    then digit
    else if ch == b'_'
    then underscore
    else other

abbrev pub is_lower_type : CharType → Bool
is_lower_type lower = true
is_lower_type _ = false

-- The state of the loop over characters.
pub record CharScan : Type 0 where
  pub current_token : Str
  pub prev_char_type : CharType
  pub word_pos : ℕ
  pub result : Tokens

module _ (std : Std) where
  abbrev pub push_token : Str → ℕ → Tokens → Tokens
  push_token token word_pos result =
      if leb 2 (byte_len token) && leb (byte_len token) max_token_length
      then result ++ ((Std.to_lowercase std token, word_pos) ∷ [])
      else result

  abbrev pub end_token : CharScan → CharScan
  end_token s = if is_empty s.current_token then s else record s {
    result = push_token s.current_token s.word_pos s.result;
    word_pos = u32 (s.word_pos + 1);
    current_token = [];
  }

  abbrev pub push_char : ℕ → CharScan → CharScan
  push_char ch s = record s { current_token = s.current_token ++ (ch ∷ []) }

  unfoldable pub on_char : CharType → ℕ → CharScan → CharScan
  on_char lower ch s = push_char ch s
  on_char digit ch s = push_char ch s
  on_char upper ch s =
      push_char (to_ascii_lowercase ch) (if is_lower_type s.prev_char_type then end_token s else s)
  on_char underscore ch s = end_token s
  on_char other ch s = end_token s

  abbrev pub scan_chars : Str → CharScan → CharScan
  scan_chars [] s = s
  scan_chars (ch ∷ rest) s =
      let char_type = classify_char ch in
      scan_chars rest (record (on_char char_type ch s) { prev_char_type = char_type })

  unfoldable pub extract_tokens_with_positions_simple : Str → Tokens
  unfolding classify_char on_char
  extract_tokens_with_positions_simple content =
      let s =
        scan_chars content
          (record { current_token = []; prev_char_type = other; word_pos = 0; result = [] }) in
      if is_empty s.current_token then s.result else push_token s.current_token s.word_pos s.result

  unfoldable pub extract_tokens_with_positions : Str → Tokens
  unfolding tokens_of_bytes extract_tokens_with_positions_simple
  extract_tokens_with_positions content =
      if ltb (length (as_bytes content)) 256
      then extract_tokens_with_positions_simple content
      else tokens_of_bytes (as_bytes content)

  unfoldable pub tokenize_query_with_positions : Str → Tokens
  unfolding extract_tokens_with_positions_simple
  tokenize_query_with_positions query = extract_tokens_with_positions_simple query

-- The loop of extract_tokens_and_positions over tokens of any kind: the map of numbers, the tokens
-- and their positions.
pub record Numbering (T : Type 0) : Type 0 where
  pub ids : List (T × ℕ)
  pub tokens : List T
  pub positions : List (ℕ × ℕ)

module _ {T : Type 0} ⦃e : Eq T⦄ where
  -- A token that has no number gets the next one.
  abbrev pub number_token : Option ℕ → T → ℕ → Numbering T → Numbering T
  number_token (some id) t pos n = record n { positions = n.positions ++ ((id, pos) ∷ []) }
  number_token none t pos n =
      let id = u32 (length n.tokens) in
      record {
        ids = put t id n.ids;
        tokens = n.tokens ++ (t ∷ []);
        positions = n.positions ++ ((id, pos) ∷ []);
      }

  abbrev pub number_tokens : List (T × ℕ) → Numbering T → Numbering T
  number_tokens [] n = n
  number_tokens ((t, pos) ∷ rest) n = number_tokens rest (number_token (find t n.ids) t pos n)

unfoldable pub extract_tokens_and_positions : Std → Str → List Str × List (ℕ × ℕ)
unfolding extract_tokens_with_positions
extract_tokens_and_positions std text =
    let n =
      number_tokens (extract_tokens_with_positions std text)
        (record { ids = []; tokens = []; positions = [] }) in
    (n.tokens, n.positions)
