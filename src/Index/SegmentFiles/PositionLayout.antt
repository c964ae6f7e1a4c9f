-- ===== src/Index/SegmentFiles/PositionLayout.antt =====
-- tokens.positions holds the encoded positions of the tokens one behind the other, each at the place
-- of its token's entry.
use fxi.Base.{
  ℕ, ◌+◌, ◌^◌, ◌<◌, ◌≡◌, refl, sym, subst, ap, ◌∙◌, arith, Bool, true, false, Option, none, some,
  List, [], ◌∷◌, ◌++◌, length, length-append, append_assoc, All, ltb, ◌==◌, if◌then◌else◌,
  Bool-cases, inl, inr, Option-cases,
}
use fxi.Base.Keys.{mem, find, keys}
use fxi.Encoding.Bitmap.{Bitmap}
use fxi.Encoding.Positions.{
  Posting, encode_position_postings, encode_position_loop, decode_position_postings,
  decode_position_loop,
}
use fxi.Encoding.Positions.RoundTrip.{AreSorted, decode-encode_position_postings}
use fxi.Query.Text.{Str, str_eq}
use fxi.Utils.Tokenizer.{u32}
use fxi.Index.Phrases.{TokenDictEntry, SegmentReader, entry_bytes, get_token_positions}
use fxi.Index.SegmentFiles.Dictionaries.{encode_positions, positions_of, is_some, u64}
use fxi.Index.SegmentFiles.Layout.{slice_between}

-- Where the positions are said to be.
abbrev pub read_place : Bool → ℕ → ℕ
read_place has n = if has then n else 0

abbrev pub pos_entry : Bool → ℕ → List ℕ → TokenDictEntry
pos_entry has pos_offset pos_encoded = record {
  pos_offset = read_place has pos_offset;
  pos_length = read_place has (u32 (length pos_encoded));
}

unfoldable pub pos_layout :
    Option (List (Str × List Posting)) → ℕ → List (Str × List ℕ) → List (Str × TokenDictEntry)
pos_layout positions pos_offset [] = []
pos_layout positions pos_offset ((token, ids) ∷ postings) =
    let pos_encoded = encode_positions (positions_of positions token) in
    (token, pos_entry (is_some positions) pos_offset pos_encoded)
    ∷ pos_layout positions (u64 (pos_offset + length pos_encoded)) postings

unfoldable pub pos_contents : Option (List (Str × List Posting)) → List (Str × List ℕ) → List ℕ
pos_contents positions [] = []
pos_contents positions ((token, ids) ∷ postings) =
    encode_positions (positions_of positions token) ++ pos_contents positions postings

-- No positions are the same as an empty list of them.
abbrev pub nonempty : {A : Type 0} → Option (List A) → Option (List A)
nonempty none = none
nonempty (some []) = none
nonempty (some (a ∷ rest)) = some (a ∷ rest)

-- The positions that stand under a token of the postings.
abbrev pub refs_of :
    Option (List (Str × List Posting)) → List (Str × List ℕ) → Str → Option (List Posting)
refs_of positions postings token =
    if mem token (keys postings) then nonempty (positions_of positions token) else none

abbrev bytes_at : List ℕ → Option TokenDictEntry → Option (List ℕ)
bytes_at mmap none = none
bytes_at mmap (some entry) = entry_bytes mmap entry

entry_bytes-pos_entry :
    (front encoded more : List ℕ)
    → length (front ++ (encoded ++ more)) < 2 ^ 32
    → entry_bytes (front ++ (encoded ++ more)) (pos_entry true (length front) encoded)
      ≡ nonempty (some encoded)
entry_bytes-pos_entry front [] more small = refl
entry_bytes-pos_entry front (b ∷ encoded) more small =
    let whole = length-append front ((b ∷ encoded) ++ more) in
    let part = length-append (b ∷ encoded) more in
    let fits : u32 (length (b ∷ encoded)) ≡ length (b ∷ encoded) = omega arith in
    let full : (length (b ∷ encoded) == 0) ≡ false = ground arith in
    let within : ltb (length (front ++ ((b ∷ encoded) ++ more)))
          (length front + length (b ∷ encoded))
        ≡ false =
      ground arith in
    rw (fits, full, within, slice_between front (b ∷ encoded) more) refl

bytes_at-pos_layout :
    (ps : List (Str × List Posting)) (token : Str) (front : List ℕ) (postings : List (Str × List ℕ))
    → length (front ++ pos_contents (some ps) postings) < 2 ^ 32
    → bytes_at
        (front ++ pos_contents (some ps) postings)
        (find token (pos_layout (some ps) (length front) postings))
      ≡ (if mem token (keys postings)
          then nonempty (some (encode_positions (find token ps)))
          else none)
unfolding pos_layout pos_contents
bytes_at-pos_layout ps token front [] small = refl
bytes_at-pos_layout ps token front ((k, ids) ∷ postings) small =
    let encoded = encode_positions (find k ps) in
    let more = pos_contents (some ps) postings in
    let whole = length-append front (encoded ++ more) in
    let part = length-append encoded more in
    let next : u64 (length front + length encoded) ≡ length (front ++ encoded) =
      omega (arith, length-append front encoded) in
    let shape = append_assoc front encoded more in
    elim (Bool-cases (str_eq.beq token k)) [
      | inl same ↦
          let is : k ≡ token = sym ((str_eq.beq_iff token k).0 same) in
          rw same (
            entry_bytes-pos_entry front encoded more small
            ∙ ap (λ t. nonempty (some (encode_positions (find t ps)))) is)
      | inr other ↦
          rw (other, next, ← shape)
            (bytes_at-pos_layout ps token (front ++ encoded) postings
              (subst (λ b. length b < 2 ^ 32) (sym shape) small))
    ]

abbrev pub ArePositions : Option (List (Str × List Posting)) → Type 0
ArePositions none = Unit
ArePositions (some ps) = All (λ (p : Str × List Posting). AreSorted 0 p.1) ps

find-AreSorted :
    (ps : List (Str × List Posting)) (token : Str) (refs : List Posting)
    → ArePositions (some ps)
    → find token ps ≡ some refs
    → AreSorted 0 refs
find-AreSorted [] token refs are h = absurd (ground arith)
find-AreSorted ((k, found) ∷ ps) token refs (is, are) h = elim (Bool-cases (str_eq.beq token k)) [
  | inl same ↦ let eq : found ≡ refs = ground arith in subst (λ r. AreSorted 0 r) eq is
  | inr other ↦ find-AreSorted ps token refs are (ground arith)
]

-- The segment that positions are read from; tokens.positions is not there if none were written.
abbrev pub positions_segment :
    Option (List (Str × List Posting)) → List (Str × TokenDictEntry) → List ℕ → SegmentReader
positions_segment none entries bytes = record { token_dict = entries; token_positions = none }
positions_segment (some ps) entries bytes = record {
  token_dict = entries;
  token_positions = some bytes;
}

abbrev decoded : Option (List ℕ) → Option (List Posting)
decoded none = none
decoded (some bytes) = decode_position_postings bytes

decoded-nonempty :
    (bytes : List ℕ) (r : Posting) (refs : List Posting)
    → decode_position_postings bytes ≡ some (r ∷ refs)
    → decoded (nonempty (some bytes)) ≡ some (r ∷ refs)
unfolding decode_position_postings decode_position_loop
decoded-nonempty [] r refs h = absurd (ground arith)
decoded-nonempty (b ∷ bytes) r refs h = h

decoded-encode_positions :
    (o : Option (List Posting))
    → ((refs : List Posting) → o ≡ some refs → AreSorted 0 refs)
    → decoded (nonempty (some (encode_positions o))) ≡ nonempty o
unfolding encode_position_postings encode_position_loop
decoded-encode_positions none sorted = refl
decoded-encode_positions (some []) sorted = refl
decoded-encode_positions (some (r ∷ refs)) sorted =
    decoded-nonempty (encode_position_postings (r ∷ refs) []) r refs
      (decode-encode_position_postings (r ∷ refs) (sorted (r ∷ refs) refl))

module _ (roaring : Bitmap) where
  get_token_positions-bytes_at :
      (ps : List (Str × List Posting)) (entries : List (Str × TokenDictEntry)) (bytes : List ℕ)
      (token : Str)
      → get_token_positions roaring (positions_segment (some ps) entries bytes) token none
        ≡ decoded (bytes_at bytes (find token entries))
  unfolding get_token_positions
  get_token_positions-bytes_at ps entries bytes token = elim (Option-cases (find token entries)) [
    | inl missing ↦ rw missing refl
    | inr (entry, there) ↦ elim (Option-cases (entry_bytes bytes entry)) [
      | inl outside ↦ rw (there, outside) refl
      | inr (slice, within) ↦ rw (there, within) refl
    ]
  ]

  pub get_token_positions-positions_segment :
      (positions : Option (List (Str × List Posting))) (entries : List (Str × TokenDictEntry))
      (bytes : List ℕ) (postings : List (Str × List ℕ)) (token : Str)
      → ArePositions positions
      → entries ≡ pos_layout positions 0 postings
      → bytes ≡ pos_contents positions postings
      → length bytes < 2 ^ 32
      → get_token_positions roaring (positions_segment positions entries bytes) token none
        ≡ refs_of positions postings token
  unfolding get_token_positions
  get_token_positions-positions_segment none entries bytes postings token are laid written small =
      elim (Bool-cases (mem token (keys postings))) [ inl t ↦ rw t refl | inr t ↦ rw t refl ]
  get_token_positions-positions_segment (some ps) entries bytes postings token are laid written
        small =
      let place =
        bytes_at-pos_layout ps token [] postings (subst (λ b. length b < 2 ^ 32) written small) in
      let sorted = λ (refs : List Posting) (h : find token ps ≡ some refs).
        find-AreSorted ps token refs are h in
      get_token_positions-bytes_at ps entries bytes token
      ∙ rw (laid, written, place)
          (elim (Bool-cases (mem token (keys postings))) [
            | inl t ↦ rw t (decoded-encode_positions (find token ps) sorted)
            | inr t ↦ rw t refl
          ])
