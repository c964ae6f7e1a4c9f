-- ===== src/Index/SegmentFiles/Tokens.antt =====
-- A token lookup in the files of a segment finds the documents that were written to them.
use fxi.Base.{
  ℕ, suc, ◌+◌, ◌^◌, ◌<◌, ◌≡◌, refl, sym, subst, ap, ◌∙◌, arith, Bool, true, false, Option, none,
  some, List, [], ◌∷◌, ◌++◌, length, length-append, append_assoc, All,
}
use fxi.Base.Keys.{nat_eq, mem, find}
use fxi.Encoding.Bitmap.{Bitmap}
use fxi.Encoding.Positions.{Posting}
use fxi.Query.Text.{Str, str_eq}
use fxi.Query.Sets.{Sets}
use fxi.Utils.Tokenizer.{u32, as_bytes}
use fxi.Index.Delta.{or_empty}
use fxi.Index.Documents.{to_le}
use fxi.Index.Documents.Stored.{read_le-to_le}
use fxi.Index.Postings.{Entry, Dictionary, bytes_of, get_docs}
use fxi.Index.Postings.Lookups.{listed_in, posted, get_docs-has_posting}
use fxi.Index.SegmentFiles.{encode_postings}
use fxi.Index.SegmentFiles.Dictionaries.{
  TokenEntry, TokenFiles, encode_positions, position_fields, positions_of, is_some, write_tokens,
  write_token_index, read_bytes, read_positions, read_token, read_tokens, read_token_dict, u16, u64,
}
use fxi.Index.Phrases.{TokenDictEntry, get_token_positions}
use fxi.Index.SegmentFiles.PositionLayout.{
  read_place, pos_layout, pos_contents, refs_of, ArePositions, positions_segment,
  get_token_positions-positions_segment,
}
use fxi.Index.SegmentFiles.Layout.{layout, contents, AllIds, listed_in-layout}

abbrev pub entries_of : List TokenEntry → List (Str × Entry)
entries_of [] = []
entries_of (t ∷ ts) =
    (t.token, record { offset = t.offset; entry_length = t.entry_length }) ∷ entries_of ts

abbrev pub token_dictionary : List TokenEntry → List ℕ → Dictionary Str
token_dictionary ts postings = record { entries = entries_of ts; postings = postings }

-- Where phrases find the positions of the tokens.
abbrev pub places_of : List TokenEntry → List (Str × TokenDictEntry)
places_of [] = []
places_of (t ∷ ts) =
    (t.token, record { pos_offset = t.pos_offset; pos_length = t.pos_length }) ∷ places_of ts

-- Tokens of fewer than 2 ^ 16 bytes that the decoding gives back from their bytes.
abbrev pub AreTokens : (List ℕ → Str) → List (Str × List ℕ) → Type 0
AreTokens from_utf8_lossy postings =
    All
      (λ (p : Str × List ℕ).
        (length (as_bytes p.0) < 2 ^ 16) × (from_utf8_lossy (as_bytes p.0) ≡ p.0))
      postings

write_tokens-contents :
    (positions : Option (List (Str × List Posting))) (offset pos_offset : ℕ)
    (postings : List (Str × List ℕ))
    → TokenFiles.postings (write_tokens positions offset pos_offset postings) ≡ contents postings
unfolding write_tokens contents
write_tokens-contents positions offset pos_offset [] = refl
write_tokens-contents positions offset pos_offset ((token, ids) ∷ postings) =
    let encoded = (encode_postings ids).0 in
    let pos_encoded = encode_positions (positions_of positions token) in
    ap (λ bytes. encoded ++ bytes)
      (write_tokens-contents positions (u64 (offset + length encoded))
        (u64 (pos_offset + length pos_encoded)) postings)

write_tokens-pos_contents :
    (positions : Option (List (Str × List Posting))) (offset pos_offset : ℕ)
    (postings : List (Str × List ℕ))
    → TokenFiles.positions (write_tokens positions offset pos_offset postings)
      ≡ pos_contents positions postings
unfolding write_tokens pos_contents
write_tokens-pos_contents positions offset pos_offset [] = refl
write_tokens-pos_contents positions offset pos_offset ((token, ids) ∷ postings) =
    let encoded = (encode_postings ids).0 in
    let pos_encoded = encode_positions (positions_of positions token) in
    ap (λ bytes. pos_encoded ++ bytes)
      (write_tokens-pos_contents positions (u64 (offset + length encoded))
        (u64 (pos_offset + length pos_encoded)) postings)

pub read_bytes_lem :
    (bytes rest : List ℕ) → read_bytes (length bytes) (bytes ++ rest) ≡ some (bytes, rest)
unfolding read_bytes
read_bytes_lem [] rest = refl
read_bytes_lem (b ∷ bytes) rest = rw (read_bytes_lem bytes rest) refl

read_positions-position_fields :
    (has : Bool) (pos_offset : ℕ) (pos_encoded rest : List ℕ)
    → pos_offset < 2 ^ 64
    → read_positions has (position_fields has pos_offset pos_encoded ++ rest)
      ≡ some (read_place has pos_offset, read_place has (u32 (length pos_encoded)), rest)
unfolding read_positions
read_positions-position_fields false pos_offset pos_encoded rest h = refl
read_positions-position_fields true pos_offset pos_encoded rest h =
    let bytes = λ (n v : ℕ) (r : List ℕ) (lt : v < 256 ^ n). read_le-to_le n v r lt in
    simp append_assoc (
      rw (bytes 8 pos_offset _ (omega arith), bytes 4 (u32 (length pos_encoded)) rest (omega arith))
        refl)

write_tokens_cons :
    (positions : Option (List (Str × List Posting))) (offset pos_offset : ℕ) (token : Str)
    (ids : List ℕ) (postings : List (Str × List ℕ))
    → TokenFiles.dict (write_tokens positions offset pos_offset ((token, ids) ∷ postings))
      ≡ to_le 2 (u16 (length (as_bytes token)))
        ++ (as_bytes token
            ++ (to_le 8 offset
                ++ (to_le 4 (u32 (length (encode_postings ids).0))
                    ++ (to_le 4 (u32 (encode_postings ids).1)
                        ++ (position_fields
                              (is_some positions)
                              pos_offset
                              (encode_positions (positions_of positions token))
                            ++ TokenFiles.dict (
                                write_tokens positions
                                  (u64 (offset + length (encode_postings ids).0))
                                  (u64 (
                                    pos_offset
                                    + length (encode_positions (positions_of positions token))))
                                  postings))))))
unfolding write_tokens
write_tokens_cons positions offset pos_offset token ids postings = refl

listed_in-written :
    (d : ℕ) (token : Str) (postings : List (Str × List ℕ)) (ts : List TokenEntry) (bytes : List ℕ)
    → AllIds postings
    → bytes ≡ contents postings
    → entries_of ts ≡ layout 0 postings
    → listed_in d (posted (bytes_of bytes (find token (entries_of ts))))
      ≡ mem d (or_empty (find token postings))
listed_in-written d token postings ts bytes ids written same =
    rw (written, same) (listed_in-layout d token [] postings ids)

module _ (from_utf8_lossy : List ℕ → Str) where
  read_token-write :
      (has : Bool) (token : Str) (offset len freq pos_offset : ℕ) (pos_encoded rest : List ℕ)
      → length (as_bytes token) < 2 ^ 16
      → from_utf8_lossy (as_bytes token) ≡ token
      → offset < 2 ^ 64
      → len < 2 ^ 32
      → pos_offset < 2 ^ 64
      → read_token from_utf8_lossy has (
          to_le 2 (u16 (length (as_bytes token)))
          ++ (as_bytes token
              ++ (to_le 8 offset
                  ++ (to_le 4 (u32 len)
                      ++ (to_le 4 (u32 freq)
                          ++ (position_fields has pos_offset pos_encoded ++ rest))))))
        ≡ some (
          record {
            token = token;
            offset = offset;
            entry_length = len;
            doc_freq = u32 freq;
            pos_offset = read_place has pos_offset;
            pos_length = read_place has (u32 (length pos_encoded));
          },
          rest,
        )
  unfolding read_token
  read_token-write has token offset len freq pos_offset pos_encoded rest ht same_text ho hl hp =
      let same : u32 len ≡ len = omega arith in
      let fits : u16 (length (as_bytes token)) ≡ length (as_bytes token) = omega arith in
      let bytes = λ (n v : ℕ) (r : List ℕ) (lt : v < 256 ^ n). read_le-to_le n v r lt in
      rw
        (
          same,
          fits,
          bytes 2 (length (as_bytes token)) _ (omega arith),
          read_bytes_lem (as_bytes token) _,
          bytes 8 offset _ (omega arith),
          bytes 4 len _ (omega arith),
          bytes 4 (u32 freq) _ (omega arith),
          read_positions-position_fields has pos_offset pos_encoded rest hp,
          same_text,
        )
        refl

  read_tokens_cons :
      (has : Bool) (n : ℕ) (bytes rest : List ℕ) (entry : TokenEntry) (ts : List TokenEntry)
      → read_token from_utf8_lossy has bytes ≡ some (entry, rest)
      → read_tokens from_utf8_lossy has n rest ≡ some ts
      → read_tokens from_utf8_lossy has (suc n) bytes ≡ some (entry ∷ ts)
  unfolding read_tokens
  read_tokens_cons has n bytes rest entry ts first more = rw (first, more) refl

  read_tokens-write_tokens :
      (positions : Option (List (Str × List Posting))) (offset pos_offset : ℕ)
      (postings : List (Str × List ℕ))
      → AreTokens from_utf8_lossy postings
      → offset + length (contents postings) < 2 ^ 32
      → pos_offset < 2 ^ 64
      → (ts : List TokenEntry) × (read_tokens from_utf8_lossy
            (is_some positions)
            (length postings)
            (TokenFiles.dict (write_tokens positions offset pos_offset postings))
          ≡ some ts)
        × (entries_of ts ≡ layout offset postings)
        × (places_of ts ≡ pos_layout positions pos_offset postings)
  unfolding layout contents read_tokens pos_layout
  read_tokens-write_tokens positions offset pos_offset [] are small wide = ([], refl, refl, refl)
  read_tokens-write_tokens positions offset pos_offset ((token, ids) ∷ postings) ((is, text), are)
        small wide =
      let encoded = (encode_postings ids).0 in
      let freq = (encode_postings ids).1 in
      let pos_encoded = encode_positions (positions_of positions token) in
      let total = length-append encoded (contents postings) in
      let next : u64 (offset + length encoded) ≡ offset + length encoded = omega arith in
      let pos_next = u64 (pos_offset + length pos_encoded) in
      let rest =
        TokenFiles.dict
          (write_tokens positions (u64 (offset + length encoded)) pos_next postings) in
      let (ts, run, same, placed) =
        read_tokens-write_tokens positions (offset + length encoded) pos_next postings are
          (omega arith) (omega arith) in
      let has = is_some positions in
      let entry : TokenEntry = record {
        token = token;
        offset = offset;
        entry_length = length encoded;
        doc_freq = u32 freq;
        pos_offset = read_place has pos_offset;
        pos_length = read_place has (u32 (length pos_encoded));
      } in
      (
        entry ∷ ts,
        subst (λ b. read_tokens from_utf8_lossy has (suc (length postings)) b ≡ some (entry ∷ ts))
            (sym (write_tokens_cons positions offset pos_offset token ids postings))
            (read_tokens_cons has (length postings) _ rest entry ts
              (read_token-write has token offset (length encoded) freq pos_offset pos_encoded rest
                is text (omega arith) (omega arith) wide)
              (subst
                (λ n.
                  read_tokens from_utf8_lossy has (length postings)
                    (TokenFiles.dict (write_tokens positions n pos_next postings))
                  ≡ some ts)
                (sym next) run)),
        rw same refl,
        rw placed refl,
      )

  module _ (roaring : Bitmap) (sets : Sets) (of_bitmap : Bitmap.B roaring → Sets.B sets)
      (as_bitmap : Sets.B sets → Bitmap.B roaring)
      (of_agrees : (b : Bitmap.B roaring) (d : ℕ)
        → Sets.contains sets (of_bitmap b) d ≡ Bitmap.contains roaring b d)
      (as_agrees : (b : Sets.B sets) (d : ℕ)
        → Bitmap.contains roaring (as_bitmap b) d ≡ Sets.contains sets b d) where
    -- Let the two kinds of bitmap hold the same documents, let the ids fit 32 bits, and let each token
    -- have fewer than 2 ^ 16 bytes and be given back from its bytes by the decoding of UTF-8, with
    -- fewer than 2 ^ 32 tokens and files of postings and of positions of fewer than 2 ^ 32 bytes each;
    -- and let the positions of each token, if any are written, be ascending, for documents in
    -- ascending order. Then tokens.dict can be read back, a lookup in what was read finds the documents
    -- that stand under the token in the postings that were written, and the positions that are decoded
    -- for the token are those that were written for it, where there are any.
    pub get_docs-write_token_index :
        (postings : List (Str × List ℕ)) (positions : Option (List (Str × List Posting)))
        (token : Str) (d : ℕ)
        → AreTokens from_utf8_lossy postings
        → AllIds postings
        → ArePositions positions
        → length postings < 2 ^ 32
        → length (TokenFiles.postings (write_token_index postings positions)) < 2 ^ 32
        → length (TokenFiles.positions (write_token_index postings positions)) < 2 ^ 32
        → (ts : List TokenEntry) × (read_token_dict from_utf8_lossy
              (some (TokenFiles.dict (write_token_index postings positions)))
              (is_some positions)
            ≡ some ts)
          × (Sets.contains sets
                (get_docs roaring sets of_bitmap as_bitmap
                  (token_dictionary ts (TokenFiles.postings (write_token_index postings positions)))
                  token)
                d
              ≡ mem d (or_empty (find token postings)))
          × (get_token_positions roaring
                (positions_segment positions
                  (places_of ts)
                  (TokenFiles.positions (write_token_index postings positions)))
                token
                none
              ≡ refs_of positions postings token)
    unfolding write_token_index read_token_dict
    get_docs-write_token_index postings positions token d are ids sorted few small small_too =
        let files = write_tokens positions 0 0 postings in
        let written = write_tokens-contents positions 0 0 postings in
        let written_too = write_tokens-pos_contents positions 0 0 postings in
        let (ts, run, same, placed) =
          read_tokens-write_tokens positions 0 0 postings are
            (omega (arith, ap (λ b. length b) written)) (omega arith) in
        let count : u32 (length postings) ≡ length postings = omega arith in
        (
          ts,
          rw (count, read_le-to_le 4 (length postings) files.dict (omega arith)) run,
          get_docs-has_posting roaring sets of_bitmap as_bitmap of_agrees as_agrees
                (token_dictionary ts files.postings) token d
              ∙ listed_in-written d token postings ts files.postings ids written same,
          get_token_positions-positions_segment roaring positions (places_of ts) files.positions
              postings token sorted placed written_too small_too,
        )
