-- ===== src/Index/Postings.antt =====
-- src/index/reader.rs: the postings of trigrams and tokens in a segment, and of tokens in all of them.
pub mod Lookups
mod Runs
use fxi.Base.{
  ℕ, ◌+◌, Bool, true, false, ◌&&◌, Option, none, some, List, [], ◌∷◌, length, ltb, leb,
  if◌then◌else◌,
}
use fxi.Base.Keys.{Eq, find}
use fxi.Encoding.Bitmap.{Bitmap}
use fxi.Encoding.Delta.{delta_decode_bitmap, delta_decode_intersect}
use fxi.Query.Text.{Str, Std, str_eq, byte_len}
use fxi.Query.Sets.{Sets}
use fxi.Utils.Tokenizer.{slice_of}

-- A dictionary, sorted by its keys, and the file that its entries point into.
pub record Entry : Type 0 where
  pub offset : ℕ
  pub entry_length : ℕ

pub record Dictionary (K : Type 0) : Type 0 where
  pub entries : List (K × Entry)
  pub postings : List ℕ

-- The bytes of an entry; none for an entry that is not there or that points outside the file.
abbrev pub bytes_of : List ℕ → Option Entry → Option (List ℕ)
bytes_of postings none = none
bytes_of postings (some e) =
    let end = e.offset + e.entry_length in
    if leb end (length postings) then some (slice_of postings e.offset end) else none

-- `of_bitmap` and `as_bitmap` join the bitmaps of the decoders and those of query execution, which
-- are the same.
module _ (roaring : Bitmap) (sets : Sets) (of_bitmap : Bitmap.B roaring → Sets.B sets)
    (as_bitmap : Sets.B sets → Bitmap.B roaring) where
  open sets use {B, new, or_of}

  -- The decoders end on any bytes.
  abbrev pub decoded : Option (Bitmap.B roaring) → B
  decoded none = new
  decoded (some b) = of_bitmap b

  abbrev pub docs_in : Option (List ℕ) → B
  docs_in none = new
  docs_in (some bytes) = decoded (delta_decode_bitmap roaring bytes)

  abbrev pub docs_in_intersect : B → Option (List ℕ) → B
  docs_in_intersect filter none = new
  docs_in_intersect filter (some bytes) =
      decoded (delta_decode_intersect roaring bytes (as_bitmap filter))

  module _ {K : Type 0} ⦃e : Eq K⦄ where
    -- get_trigram_docs and get_token_docs of a segment
    unfoldable pub get_docs : Dictionary K → K → B
    get_docs dict key = docs_in (bytes_of dict.postings (find key dict.entries))

    unfoldable pub get_docs_intersect : Dictionary K → K → B → B
    get_docs_intersect dict key filter =
        docs_in_intersect filter (bytes_of dict.postings (find key dict.entries))

  -- `finds` is the substring search of the memchr package.
  module _ (std : Std) (finds : (needle token : Str) → Bool) where
    unfoldable pub containing_loop : Str → List ℕ → List (Str × Entry) → B → B
    containing_loop needle postings [] result = result
    containing_loop needle postings ((token, entry) ∷ entries) result =
        containing_loop needle postings entries (
          if leb (byte_len needle) (byte_len token) && finds needle token
          then or_of result (docs_in (bytes_of postings (some entry)))
          else result)

    unfoldable pub get_token_docs_containing_in : Str → Dictionary Str → B
    unfolding containing_loop
    get_token_docs_containing_in needle dict = containing_loop needle dict.postings dict.entries new

    -- One segment or none is asked directly; several are reduced.
    abbrev pub reduce : (Dictionary Str → B) → List (Dictionary Str) → B
    reduce lookup [] = new
    reduce lookup (s ∷ ss) = or_of (lookup s) (reduce lookup ss)

    abbrev pub over_segments : (Dictionary Str → B) → List (Dictionary Str) → B
    over_segments lookup [] = new
    over_segments lookup (s ∷ []) = lookup s
    over_segments lookup (s ∷ r ∷ ss) = reduce lookup (s ∷ r ∷ ss)

    unfoldable pub get_token_docs : List (Dictionary Str) → Str → B
    unfolding get_docs
    get_token_docs segments token =
        let token_lower = Std.to_lowercase std token in
        over_segments (λ (s : Dictionary Str). get_docs s token_lower) segments

    unfoldable pub get_token_docs_containing : List (Dictionary Str) → Str → B
    unfolding get_token_docs_containing_in
    get_token_docs_containing segments needle =
        over_segments (get_token_docs_containing_in (Std.to_lowercase std needle)) segments
