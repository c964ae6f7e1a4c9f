-- ===== src/Index/SegmentFiles/Dictionaries.antt =====
-- The dictionaries and postings of trigrams and of tokens, as write_trigram_index and
-- write_token_index of src/index/segment_io.rs write them and read_trigram_dict and read_token_dict
-- of src/index/reader.rs read them.
use fxi.Base.{
  ℕ, zero, suc, ◌+◌, ◌%◌, ◌^◌, Bool, true, false, Option, none, some, List, [], ◌∷◌, ◌++◌, length,
  if◌then◌else◌, ◌>>=◌,
}
use fxi.Base.Keys.{nat_eq, mem, find}
use fxi.Encoding.Positions.{Posting, encode_position_postings}
use fxi.Query.Text.{Str, str_eq}
use fxi.Utils.Tokenizer.{u32, as_bytes}
use fxi.Index.Documents.{to_le, read_le}
use fxi.Index.SegmentFiles.{encode_postings}

abbrev pub u64 : ℕ → ℕ
u64 n = n % 2 ^ 64

abbrev pub u16 : ℕ → ℕ
u16 n = n % 2 ^ 16

pub record GramEntry : Type 0 where
  pub trigram : ℕ
  pub offset : ℕ
  pub entry_length : ℕ
  pub doc_freq : ℕ

abbrev pub is_stop : Option (List ℕ) → ℕ → Bool
is_stop none trigram = false
is_stop (some stop_grams) trigram = mem trigram stop_grams

unfoldable pub omit_stop_grams : Option (List ℕ) → List (ℕ × List ℕ) → List (ℕ × List ℕ)
omit_stop_grams stop_grams [] = []
omit_stop_grams stop_grams ((t, ids) ∷ postings) =
    let rest = omit_stop_grams stop_grams postings in
    if is_stop stop_grams t then rest else (t, ids) ∷ rest

-- The entries of the dictionary, and the postings that they point to.
unfoldable pub write_grams : (postings_offset : ℕ) → List (ℕ × List ℕ) → List ℕ × List ℕ
unfolding encode_postings
write_grams postings_offset [] = ([], [])
write_grams postings_offset ((t, ids) ∷ postings) =
    let (encoded, doc_freq) = encode_postings ids in
    let (dict, bytes) = write_grams (u64 (postings_offset + length encoded)) postings in
    (
      to_le 4 t
          ++ (to_le 8 postings_offset
              ++ (to_le 4 (u32 (length encoded)) ++ (to_le 4 (u32 doc_freq) ++ dict))),
      encoded ++ bytes,
    )

-- grams.dict and grams.postings
unfoldable pub write_trigram_index :
    List (ℕ × List ℕ) → (stop_grams : Option (List ℕ)) → List ℕ × List ℕ
unfolding omit_stop_grams write_grams
write_trigram_index postings stop_grams =
    let filtered = omit_stop_grams stop_grams postings in
    let (dict, bytes) = write_grams 0 filtered in (to_le 4 (u32 (length filtered)) ++ dict, bytes)

unfoldable pub read_gram : List ℕ → Option (GramEntry × List ℕ)
read_gram bytes = do
  (trigram, b₁) ← read_le 4 bytes
  (offset, b₂) ← read_le 8 b₁
  (entry_length, b₃) ← read_le 4 b₂
  (doc_freq, b₄) ← read_le 4 b₃
  some (
    record { trigram = trigram; offset = offset; entry_length = entry_length; doc_freq = doc_freq },
    b₄,
  )

unfoldable pub read_grams : (count : ℕ) → List ℕ → Option (List GramEntry)
unfolding read_gram
read_grams zero bytes = some []
read_grams (suc n) bytes = do
  (entry, rest) ← read_gram bytes
  entries ← read_grams n rest
  some (entry ∷ entries)

-- No file is a dictionary without entries.
unfoldable pub read_trigram_dict : Option (List ℕ) → Option (List GramEntry)
unfolding read_grams
read_trigram_dict none = some []
read_trigram_dict (some bytes) = do (count, rest) ← read_le 4 bytes; read_grams count rest

pub record TokenEntry : Type 0 where
  pub token : Str
  pub offset : ℕ
  pub entry_length : ℕ
  pub doc_freq : ℕ
  pub pos_offset : ℕ
  pub pos_length : ℕ

-- The bytes of a token's positions, none if it has no positions.
abbrev pub encode_positions : Option (List Posting) → List ℕ
encode_positions none = []
encode_positions (some refs) = encode_position_postings refs []

-- The place and the length of a token's positions, if positions are written.
abbrev pub position_fields : Bool → (pos_offset : ℕ) → List ℕ → List ℕ
position_fields false pos_offset pos_encoded = []
position_fields true pos_offset pos_encoded =
    to_le 8 pos_offset ++ to_le 4 (u32 (length pos_encoded))

abbrev pub positions_of : Option (List (Str × List Posting)) → Str → Option (List Posting)
positions_of none token = none
positions_of (some positions) token = find token positions

abbrev pub is_some : {A : Type 0} → Option A → Bool
is_some none = false
is_some (some a) = true

-- What has been written to the three files.
pub record TokenFiles : Type 0 where
  pub dict : List ℕ
  pub postings : List ℕ
  pub positions : List ℕ

unfoldable pub write_tokens :
    Option (List (Str × List Posting))
    → (postings_offset pos_offset : ℕ) → List (Str × List ℕ)
    → TokenFiles
unfolding encode_postings
write_tokens positions postings_offset pos_offset [] = record {
  dict = [];
  postings = [];
  positions = [];
}
write_tokens positions postings_offset pos_offset ((token, ids) ∷ postings) =
    let (encoded, doc_freq) = encode_postings ids in
    let pos_encoded = encode_positions (positions_of positions token) in
    let rest =
      write_tokens positions (u64 (postings_offset + length encoded))
        (u64 (pos_offset + length pos_encoded)) postings in
    record {
      dict =
          to_le 2 (u16 (length (as_bytes token)))
          ++ (as_bytes token
              ++ (to_le 8 postings_offset
                  ++ (to_le 4 (u32 (length encoded))
                      ++ (to_le 4 (u32 doc_freq)
                          ++ (position_fields (is_some positions) pos_offset pos_encoded
                              ++ rest.dict)))));
      postings = encoded ++ rest.postings;
      positions = pos_encoded ++ rest.positions;
    }

-- tokens.dict, tokens.postings and tokens.positions, which is not written without positions.
unfoldable pub write_token_index :
    List (Str × List ℕ) → Option (List (Str × List Posting)) → TokenFiles
unfolding write_tokens
write_token_index postings positions =
    let files = write_tokens positions 0 0 postings in
    record files { dict = to_le 4 (u32 (length postings)) ++ files.dict }

-- read_exact of a text's bytes.
unfoldable pub read_bytes : ℕ → List ℕ → Option (List ℕ × List ℕ)
read_bytes zero bytes = some ([], bytes)
read_bytes (suc n) [] = none
read_bytes (suc n) (b ∷ bytes) = do (front, rest) ← read_bytes n bytes; some (b ∷ front, rest)

unfoldable pub read_positions : Bool → List ℕ → Option (ℕ × ℕ × List ℕ)
read_positions false bytes = some (0, 0, bytes)
read_positions true bytes = do
  (pos_offset, b₁) ← read_le 8 bytes
  (pos_length, b₂) ← read_le 4 b₁
  some (pos_offset, pos_length, b₂)

-- `from_utf8_lossy` is the decoding of the standard library.
module _ (from_utf8_lossy : List ℕ → Str) where
  unfoldable pub read_token : (has_positions : Bool) → List ℕ → Option (TokenEntry × List ℕ)
  unfolding read_bytes read_positions
  read_token has_positions bytes = do
    (token_len, b₁) ← read_le 2 bytes
    (token_bytes, b₂) ← read_bytes token_len b₁
    (offset, b₃) ← read_le 8 b₂
    (entry_length, b₄) ← read_le 4 b₃
    (doc_freq, b₅) ← read_le 4 b₄
    (pos_offset, pos_length, b₆) ← read_positions has_positions b₅
    some (
      record {
        token = from_utf8_lossy token_bytes;
        offset = offset;
        entry_length = entry_length;
        doc_freq = doc_freq;
        pos_offset = pos_offset;
        pos_length = pos_length;
      },
      b₆,
    )

  unfoldable pub read_tokens :
      (has_positions : Bool) → (count : ℕ) → List ℕ → Option (List TokenEntry)
  unfolding read_token
  read_tokens has_positions zero bytes = some []
  read_tokens has_positions (suc n) bytes = do
    (entry, rest) ← read_token has_positions bytes
    entries ← read_tokens has_positions n rest
    some (entry ∷ entries)

  unfoldable pub read_token_dict :
      Option (List ℕ) → (has_positions : Bool) → Option (List TokenEntry)
  unfolding read_tokens
  read_token_dict none has_positions = some []
  read_token_dict (some bytes) has_positions = do
    (count, rest) ← read_le 4 bytes
    read_tokens has_positions count rest
