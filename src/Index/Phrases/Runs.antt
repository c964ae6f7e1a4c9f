-- ===== src/Index/Phrases/Runs.antt =====
-- Runs of the phrase lookup of src/index/reader.rs, and its theorem at a concrete input.
use fxi.Base.{
  ℕ, ◌≡◌, refl, subst, ◌∙◌, arith, true, ◌&&◌, Option, none, some, List, [], ◌∷◌, if◌then◌else◌,
}
use fxi.Encoding.Bitmap.Lists.{listed}
use fxi.Encoding.Positions.{Posting, encode_position_postings, encode_position_loop}
use fxi.Base.{dec_lt}
use fxi.Base.Order.{lt_wf}
use fxi.Encoding.Varint.{encode_varint, encode_loop}
use fxi.Encoding.Delta.{delta_encode_loop}
use fxi.Query.Text.{str_eq, codes}
use fxi.Query.Ascii.{ascii}
use fxi.Query.Sets.{elem}
use fxi.Query.Sets.Lists.{lists, held-elem}
use fxi.Query.Executor.{among, is_some}
use fxi.Index.Phrases.{TokenDictEntry, SegmentReader, entry_bytes, resolve_phrase_positional}
use fxi.Index.Phrases.Narrowed.{IsWritten, IsWellFormed, resolve_phrase_positional-narrowed}

-- Both tokens stand at the positions 1 and 2 of document 3.
abbrev some_docs : List Posting
some_docs = (3, 1 ∷ 2 ∷ []) ∷ []

abbrev some_bytes : List ℕ
some_bytes = 3 ∷ 2 ∷ 1 ∷ 1 ∷ []

abbrev the_entry : TokenDictEntry
the_entry = record { pos_offset = 0; pos_length = 4 }

abbrev some_segment : SegmentReader
some_segment = record {
  token_dict = (codes "ab", the_entry) ∷ (codes "cd", the_entry) ∷ [];
  token_positions = some some_bytes;
}

some_bytes_written : some_bytes ≡ encode_position_postings some_docs []
unfolding encode_position_postings encode_position_loop delta_encode_loop encode_varint encode_loop
    lt_wf dec_lt
some_bytes_written = refl

the_entry-IsWritten :
    (entry : TokenDictEntry) (bytes : List ℕ)
    → entry ≡ the_entry
    → entry_bytes some_bytes entry ≡ some bytes
    → IsWritten bytes
the_entry-IsWritten entry bytes same within =
    let all : entry_bytes some_bytes the_entry ≡ some bytes =
      subst (λ x. entry_bytes some_bytes x ≡ some bytes) same within in
    let is : bytes ≡ some_bytes = ground arith in (some_docs, omega arith, is ∙ some_bytes_written)

some_segment-IsWellFormed : IsWellFormed some_segment
some_segment-IsWellFormed token entry mmap bytes there known within =
    let same_file : mmap ≡ some_bytes = ground arith in
    let same : entry ≡ the_entry = ground arith in
    the_entry-IsWritten entry bytes same
      (subst (λ m. entry_bytes m entry ≡ some bytes) same_file within)

abbrev resolve : Option (List ℕ) → Option (List ℕ)
resolve =
    resolve_phrase_positional listed ascii lists (λ b. b) (some_segment ∷ [])
      ((codes "ab", 0) ∷ (codes "cd", 1) ∷ [])

resolve_phrase_positional-narrowed_example :
    (is_some (resolve (some (3 ∷ 5 ∷ []))) ≡ is_some (resolve none))
    × (among lists (resolve (some (3 ∷ 5 ∷ []))) 3 ≡ (
        if is_some (resolve none)
        then elem 3 (3 ∷ 5 ∷ []) && among lists (resolve none) 3
        else true))
resolve_phrase_positional-narrowed_example =
    resolve_phrase_positional-narrowed listed ascii lists (λ b. b) held-elem (some_segment ∷ [])
      ((codes "ab", 0) ∷ (codes "cd", 1) ∷ []) (3 ∷ 5 ∷ []) 3 (some_segment-IsWellFormed, tt)
