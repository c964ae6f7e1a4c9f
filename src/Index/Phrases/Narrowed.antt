-- ===== src/Index/Phrases/Narrowed.antt =====
-- Restricting a phrase to candidates, for which the positions of other documents are not decoded,
-- finds the candidates that the phrase finds without them.
use fxi.Base.{
  ℕ, ◌≡◌, refl, ◌∙◌, ap, arith, Bool, true, false, ◌&&◌, ◌||◌, none, some, List, [], ◌∷◌, All, ◌==◌,
  ==_iff, if◌then◌else◌, Bool-cases, Option-cases, ◌⊎◌, inl, inr,
}
use fxi.Base.Keys.{nat_eq, find}
use fxi.Encoding.Bitmap.{Bitmap}
use fxi.Encoding.Positions.{Posting, encode_position_postings}
use fxi.Encoding.Positions.RoundTrip.{AreSorted, decode-encode_position_postings}
use fxi.Encoding.Positions.Filtered.{retain, decode_position_postings_filtered_lem}
use fxi.Query.Text.{Str, Std, str_eq}
use fxi.Query.Sets.{Sets}
use fxi.Query.Executor.{among, is_some}
use fxi.Index.Phrases.{
  TokenDictEntry, SegmentReader, all_match, any_start, decode, entry_bytes, get_token_positions,
  all_positions, tokens_lower, collect_docs, docs_of_positions, resolve_phrase_in_segment,
  reduce_phrase, resolve_phrase_positional,
}

-- Bytes that encode_position_postings wrote.
abbrev pub IsWritten : List ℕ → Type 0
IsWritten bytes =
    (docs : List Posting) × AreSorted 0 docs × (bytes ≡ encode_position_postings docs [])

-- The bytes of every entry of the dictionary were written so.
abbrev pub IsWellFormed : SegmentReader → Type 0
IsWellFormed segment =
    (token : Str) (entry : TokenDictEntry) (mmap bytes : List ℕ)
    → segment.token_positions ≡ some mmap
    → find token segment.token_dict ≡ some entry
    → entry_bytes mmap entry ≡ some bytes
    → IsWritten bytes

abbrev retain_all : (ℕ → Bool) → List (List Posting) → List (List Posting)
retain_all test [] = []
retain_all test (p ∷ ps) = retain test p ∷ retain_all test ps

find-retain :
    (test : ℕ → Bool) (d : ℕ) (docs : List Posting)
    → test d ≡ true
    → find d (retain test docs) ≡ find d docs
find-retain test d [] h = refl
find-retain test d ((doc, ps) ∷ docs) h =
    let ih = find-retain test d docs h in
    let same = ==_iff d doc in
    elim (Bool-cases (test doc)) [ inl e ↦ rw e (ground arith) | inr e ↦ rw e (ground arith) ]

all_match-retain_all :
    (test : ℕ → Bool) (d start first : ℕ) (ps : List (List Posting)) (tokens : List (Str × ℕ))
    → test d ≡ true
    → all_match d start first (retain_all test ps) tokens ≡ all_match d start first ps tokens
unfolding all_match
all_match-retain_all test d start first [] tokens h = refl
all_match-retain_all test d start first (p ∷ ps) [] h = refl
all_match-retain_all test d start first (p ∷ ps) ((t, offset) ∷ tokens) h =
    rw (find-retain test d p h, all_match-retain_all test d start first ps tokens h) refl

any_start-retain_all :
    (test : ℕ → Bool) (d first : ℕ) (ps : List (List Posting)) (tokens : List (Str × ℕ))
    (starts : List ℕ)
    → test d ≡ true
    → any_start d first (retain_all test ps) tokens starts ≡ any_start d first ps tokens starts
unfolding any_start
any_start-retain_all test d first ps tokens [] h = refl
any_start-retain_all test d first ps tokens (start ∷ starts) h =
    rw
      (
        all_match-retain_all test d start first ps tokens h,
        any_start-retain_all test d first ps tokens starts h,
      )
      refl

-- Whether the loop over the first token's documents inserts a document.
hits : ℕ → List (List Posting) → List (Str × ℕ) → ℕ → List Posting → Bool
hits first ps tokens d [] = false
hits first ps tokens d ((doc, starts) ∷ rest) =
    (d == doc && any_start d first ps tokens starts) || hits first ps tokens d rest

hits-retain_all :
    (test : ℕ → Bool) (first : ℕ) (ps : List (List Posting)) (tokens : List (Str × ℕ)) (d : ℕ)
    (docs : List Posting)
    → hits first (retain_all test ps) tokens d (retain test docs)
      ≡ (test d && hits first ps tokens d docs)
unfolding hits
hits-retain_all test first ps tokens d [] = ground arith
hits-retain_all test first ps tokens d ((doc, starts) ∷ docs) =
    let ih = hits-retain_all test first ps tokens d docs in
    let same = ==_iff d doc in
    let here = any_start-retain_all test d first ps tokens starts in
    let moved : d ≡ doc → test d ≡ test doc = λ at. ap test at in
    elim (Bool-cases (test doc)) [ inl e ↦ rw e (ground arith) | inr e ↦ rw e (ground arith) ]

module _ (roaring : Bitmap) where
  open roaring use {contains}

  decode-narrowed :
      (bytes : List ℕ) (filter : Bitmap.B roaring)
      → IsWritten bytes
      → (docs : List Posting) × (decode roaring bytes none ≡ some docs)
        × (decode roaring bytes (some filter) ≡ some (retain (contains filter) docs))
  decode-narrowed bytes filter (docs, sorted, written) = (
    docs,
    rw written (decode-encode_position_postings docs sorted),
    rw written (decode_position_postings_filtered_lem roaring docs filter sorted),
  )

  get_token_positions-narrowed :
      (segment : SegmentReader) (token : Str) (filter : Bitmap.B roaring)
      → IsWellFormed segment
      → ((get_token_positions roaring segment token none ≡ none)
          × (get_token_positions roaring segment token (some filter) ≡ none))
        ⊎ ((docs : List Posting) × (get_token_positions roaring segment token none ≡ some docs)
            × (get_token_positions roaring segment token (some filter)
                ≡ some (retain (contains filter) docs)))
  unfolding get_token_positions
  get_token_positions-narrowed segment token filter w =
      elim (Option-cases segment.token_positions) [
        | inl none_there ↦ inl (rw none_there refl, rw none_there refl)
        | inr (mmap, there) ↦ elim (Option-cases (find token segment.token_dict)) [
          | inl unknown ↦ inl (rw (there, unknown) refl, rw (there, unknown) refl)
          | inr (entry, known) ↦ elim (Option-cases (entry_bytes mmap entry)) [
            | inl outside ↦ inl (rw (there, known, outside) refl, rw (there, known, outside) refl)
            | inr (bytes, within) ↦
                let (docs, all, some_of) =
                  decode-narrowed bytes filter (w token entry mmap bytes there known within) in
                inr (docs, rw (there, known, within) all, rw (there, known, within) some_of)
          ]
        ]
      ]

  all_positions-narrowed :
      (segment : SegmentReader) (tokens : List Str) (filter : Bitmap.B roaring)
      → IsWellFormed segment
      → ((all_positions roaring segment tokens none ≡ none)
          × (all_positions roaring segment tokens (some filter) ≡ none))
        ⊎ ((ps : List (List Posting)) × (all_positions roaring segment tokens none ≡ some ps)
            × (all_positions roaring segment tokens (some filter)
                ≡ some (retain_all (contains filter) ps)))
  unfolding all_positions
  all_positions-narrowed segment [] filter w = inr ([], refl, refl)
  all_positions-narrowed segment (token ∷ tokens) filter w =
      elim (get_token_positions-narrowed segment token filter w) [
        | inl (missing, missing') ↦ inl (rw missing refl, rw missing' refl)
        | inr (docs, all, some_of) ↦ elim (all_positions-narrowed segment tokens filter w) [
          | inl (missing, missing') ↦ inl (rw (all, missing) refl, rw (some_of, missing') refl)
          | inr (ps, rest, rest_of) ↦
              inr (docs ∷ ps, rw (all, rest) refl, rw (some_of, rest_of) refl)
        ]
      ]

  module _ (std : Std) (sets : Sets) (as_bitmap : Sets.B sets → Bitmap.B roaring)
      (agrees : (b : Sets.B sets) (d : ℕ) → contains (as_bitmap b) d ≡ Sets.contains sets b d) where
    collect_docs-hits :
        (first : ℕ) (ps : List (List Posting)) (tokens : List (Str × ℕ)) (docs : List Posting)
        (result : Sets.B sets) (d : ℕ)
        → Sets.contains sets (collect_docs roaring std sets as_bitmap first ps tokens docs result) d
          ≡ (Sets.contains sets result d || hits first ps tokens d docs)
    unfolding collect_docs hits
    collect_docs-hits first ps tokens [] result d = ground arith
    collect_docs-hits first ps tokens ((doc, starts) ∷ docs) result d =
        let added = sets.contains-insert result doc d in
        let same = ==_iff d doc in
        let moved : d ≡ doc
            → any_start d first ps tokens starts ≡ any_start doc first ps tokens starts =
          λ at. ap (λ x. any_start x first ps tokens starts) at in
        elim (Bool-cases (any_start doc first ps tokens starts)) [
          | inl e ↦
              rw e
                (collect_docs-hits first ps tokens docs (sets.insert result doc) d ∙ ground arith)
          | inr e ↦ rw e (collect_docs-hits first ps tokens docs result d ∙ ground arith)
        ]

    docs_of_positions-narrowed :
        (ps : List (List Posting)) (tokens : List (Str × ℕ)) (filter : Sets.B sets) (d : ℕ)
        → Sets.contains sets
            (docs_of_positions roaring std sets as_bitmap
              (retain_all (contains (as_bitmap filter)) ps)
              tokens)
            d
          ≡ (Sets.contains sets filter d
              && Sets.contains sets (docs_of_positions roaring std sets as_bitmap ps tokens) d)
    docs_of_positions-narrowed [] tokens filter d = ground (arith, sets.contains-new d)
    docs_of_positions-narrowed (p ∷ ps) [] filter d = ground (arith, sets.contains-new d)
    docs_of_positions-narrowed (p ∷ ps) ((t, first) ∷ tokens) filter d =
        let test = contains (as_bitmap filter) in
        ground (
          arith,
          sets.contains-new d,
          agrees filter d,
          collect_docs-hits first (retain_all test ps) tokens (retain test p) sets.new d,
          collect_docs-hits first ps tokens p sets.new d,
          hits-retain_all test first ps tokens d p,
        )

    resolve_phrase_in_segment-narrowed :
        (segment : SegmentReader) (tokens : List (Str × ℕ)) (filter : Sets.B sets) (d : ℕ)
        → IsWellFormed segment
        → Sets.contains sets
            (resolve_phrase_in_segment roaring std sets as_bitmap segment tokens (some filter))
            d
          ≡ (Sets.contains sets filter d
              && Sets.contains sets
                  (resolve_phrase_in_segment roaring std sets as_bitmap segment tokens none)
                  d)
    unfolding resolve_phrase_in_segment
    resolve_phrase_in_segment-narrowed segment tokens filter d w =
        let lowered = tokens_lower roaring std sets as_bitmap tokens in
        elim (all_positions-narrowed segment lowered (as_bitmap filter) w) [
          | inl (missing, missing') ↦ rw (missing, missing') (ground (arith, sets.contains-new d))
          | inr (ps, all, some_of) ↦
              rw (all, some_of) (docs_of_positions-narrowed ps tokens filter d)
        ]

    reduce_phrase-narrowed :
        (segments : List SegmentReader) (tokens : List (Str × ℕ)) (filter : Sets.B sets) (d : ℕ)
        → All IsWellFormed segments
        → Sets.contains sets
            (reduce_phrase roaring std sets as_bitmap segments tokens (some filter))
            d
          ≡ (Sets.contains sets filter d
              && Sets.contains sets
                  (reduce_phrase roaring std sets as_bitmap segments tokens none)
                  d)
    unfolding reduce_phrase
    reduce_phrase-narrowed [] tokens filter d w = ground (arith, sets.contains-new d)
    reduce_phrase-narrowed (s ∷ ss) tokens filter d (w, ws) =
        let one = resolve_phrase_in_segment roaring std sets as_bitmap s tokens in
        let rest = reduce_phrase roaring std sets as_bitmap ss tokens in
        ground (
          arith,
          sets.contains-or_of (one (some filter)) (rest (some filter)) d,
          sets.contains-or_of (one none) (rest none) d,
          resolve_phrase_in_segment-narrowed s tokens filter d w,
          reduce_phrase-narrowed ss tokens filter d ws,
        )

    -- Let the two kinds of bitmap hold the same documents, and let the positions of every segment be
    -- bytes that encode_position_postings wrote for documents in order. Then
    -- resolve_phrase_positional gives an answer with candidates exactly if it gives one without, and
    -- the documents of that answer are the candidates among the documents of the other one.
    pub resolve_phrase_positional-narrowed :
        (segments : List SegmentReader) (tokens : List (Str × ℕ)) (filter : Sets.B sets) (d : ℕ)
        → All IsWellFormed segments
        → (let resolve = resolve_phrase_positional roaring std sets as_bitmap segments tokens in
            (is_some (resolve (some filter)) ≡ is_some (resolve none))
            × (among sets (resolve (some filter)) d ≡ (
                if is_some (resolve none)
                then Sets.contains sets filter d && among sets (resolve none) d
                else true)))
    unfolding resolve_phrase_positional
    resolve_phrase_positional-narrowed segments tokens filter d w =
        let narrowed = reduce_phrase-narrowed segments tokens filter d w in
        (ground arith, ground arith)
