-- ===== src/Index/SegmentFiles/Runs.antt =====
-- The files of a small segment, and the theorems at them.
use fxi.Base.{
  dec_lt, ℕ, ◌≡◌, sym, refl, arith, false, Option, none, some, List, [], ◌∷◌, if◌then◌else◌,
}
use fxi.Base.Order.{lt_wf}
use fxi.Base.Keys.{nat_eq, mem, find}
use fxi.Encoding.Bitmap.Lists.{held, listed}
use fxi.Encoding.Positions.{Posting, encode_position_postings, encode_position_loop}
use fxi.Encoding.Varint.{encode_varint, encode_loop}
use fxi.Encoding.Delta.{delta_encode, delta_encode_loop}
use fxi.Query.Text.{Str, codes, str_eq}
use fxi.Query.Sets.{elem}
use fxi.Query.Sets.Lists.{lists, held-elem}
use fxi.Utils.Tokenizer.{encode}
use fxi.Index.Delta.{or_empty}
use fxi.Index.Postings.{get_docs}
use fxi.Index.SegmentFiles.{encode_postings}
use fxi.Index.SegmentFiles.Dictionaries.{
  GramEntry, TokenEntry, TokenFiles, is_stop, is_some, write_trigram_index, read_trigram_dict,
  write_token_index, read_token_dict, write_grams, write_tokens, omit_stop_grams,
}
use fxi.Index.SegmentFiles.Tokens.{token_dictionary, places_of, get_docs-write_token_index}
use fxi.Index.Phrases.{get_token_positions}
use fxi.Index.SegmentFiles.PositionLayout.{positions_segment}
use fxi.Index.SegmentFiles.LineMaps.{write_line_maps, read_line_maps}
use fxi.Index.SegmentFiles.SideFiles.{read_line_maps-write_line_maps}
use fxi.Index.SegmentFiles.Flat.{groups_of, write_groups, write_trigram_index_flat}
use fxi.Index.SegmentFiles.Chunks.{
  AssignedFile, pairs_with, trigram_pairs, sort_pairs, write_segment_trigrams, in_files,
  get_docs-write_segment_trigrams,
}
use fxi.Index.SegmentFiles.Grams.{gram_dictionary, get_docs-write_trigram_index}

abbrev grams : List (ℕ × List ℕ)
grams = (5, 1 ∷ 3 ∷ []) ∷ (7, 2 ∷ []) ∷ (9, 4 ∷ 1 ∷ 4 ∷ []) ∷ []

abbrev same : List ℕ → List ℕ
same b = b

same_agrees : (b : List ℕ) (d : ℕ) → elem d b ≡ held b d
same_agrees b d = sym (held-elem b d)

get_docs-write_trigram_index_example :
    (gs : List GramEntry) × (read_trigram_dict (some (write_trigram_index grams (some (7 ∷ []))).0)
      ≡ some gs)
    × (elem 4 (
          get_docs listed lists same same
            (gram_dictionary gs (write_trigram_index grams (some (7 ∷ []))).1)
            9)
        ≡ (if is_stop (some (7 ∷ [])) 9 then false else mem 4 (or_empty (find 9 grams))))
unfolding write_trigram_index write_grams omit_stop_grams encode_postings delta_encode
    delta_encode_loop encode_varint encode_loop lt_wf dec_lt
get_docs-write_trigram_index_example =
    get_docs-write_trigram_index listed lists same same same_agrees held-elem grams (some (7 ∷ []))
      9 4 (omega arith, (omega arith, (omega arith, tt)))
      (
        (omega arith, (omega arith, tt)),
        ((omega arith, tt), ((omega arith, (omega arith, (omega arith, tt))), tt)),
      )
      (omega arith) (omega arith)

abbrev token_postings : List (Str × List ℕ)
token_postings = (codes "b", 3 ∷ 2 ∷ []) ∷ (codes "no", 7 ∷ []) ∷ []

abbrev token_positions : Option (List (Str × List Posting))
token_positions = some ((codes "b", (2, 0 ∷ 5 ∷ []) ∷ (3, 1 ∷ []) ∷ []) ∷ [])

-- The decoding of ASCII texts, whose bytes are their characters.
abbrev from_ascii : List ℕ → Str
from_ascii bytes = bytes

get_docs-write_token_index_example :
    (ts : List TokenEntry) × (read_token_dict from_ascii
        (some (TokenFiles.dict (write_token_index token_postings token_positions)))
        (is_some token_positions)
      ≡ some ts)
    × (elem 2 (
          get_docs listed lists same same
            (token_dictionary ts
              (TokenFiles.postings (write_token_index token_postings token_positions)))
            (codes "b"))
        ≡ mem 2 (or_empty (find (codes "b") token_postings)))
    × (get_token_positions listed
          (positions_segment token_positions
            (places_of ts)
            (TokenFiles.positions (write_token_index token_postings token_positions)))
          (codes "b")
          none
        ≡ some ((2, 0 ∷ 5 ∷ []) ∷ (3, 1 ∷ []) ∷ []))
unfolding write_token_index write_tokens encode_postings delta_encode delta_encode_loop
    encode_varint encode_loop lt_wf dec_lt encode encode_position_postings encode_position_loop
get_docs-write_token_index_example =
    get_docs-write_token_index from_ascii listed lists same same same_agrees held-elem
      token_postings token_positions (codes "b") 2 ((omega arith, refl), ((omega arith, refl), tt))
      ((omega arith, (omega arith, tt)), ((omega arith, tt), tt))
      (
        (
          omega arith,
          omega arith,
          omega arith,
          (omega arith, omega arith, (omega arith, omega arith, tt)),
          (omega arith, omega arith, omega arith, (omega arith, omega arith, tt), tt),
        ),
        tt,
      )
      (omega arith) (omega arith) (omega arith)

abbrev line_maps : List (ℕ × List ℕ)
line_maps = (4, 0 ∷ 6 ∷ 9 ∷ []) ∷ (2, 0 ∷ []) ∷ []

read_line_maps-write_line_maps_example :
    (read : List (ℕ × List ℕ)) × (read_line_maps (some (write_line_maps line_maps)) ≡ some read)
    × (find 4 read ≡ find 4 line_maps)
unfolding delta_encode delta_encode_loop encode_varint encode_loop lt_wf dec_lt
read_line_maps-write_line_maps_example =
    read_line_maps-write_line_maps line_maps 4
      (
        (
          omega arith,
          (omega arith, omega arith, (omega arith, omega arith, (omega arith, omega arith, tt))),
          omega arith,
        ),
        ((omega arith, (omega arith, omega arith, tt), omega arith), tt),
      )
      refl (omega arith)

abbrev files : List AssignedFile
files =
    record {
      doc_id = 3;
      trigrams = 9 ∷ 5 ∷ [];
      tokens = [];
      line_offsets = 0 ∷ [];
      token_positions = [];
    }
    ∷ record {
      doc_id = 4;
      trigrams = 5 ∷ [];
      tokens = [];
      line_offsets = 0 ∷ [];
      token_positions = [];
    }
    ∷ []

get_docs-write_segment_trigrams_example :
    (gs : List GramEntry) × (read_trigram_dict (some (write_segment_trigrams files).0) ≡ some gs)
    × (elem 4
          (get_docs listed lists same same (gram_dictionary gs (write_segment_trigrams files).1) 5)
        ≡ in_files 5 4 files)
unfolding write_segment_trigrams write_trigram_index_flat write_groups groups_of sort_pairs
    trigram_pairs pairs_with delta_encode delta_encode_loop encode_varint encode_loop lt_wf dec_lt
get_docs-write_segment_trigrams_example =
    get_docs-write_segment_trigrams listed lists same same same_agrees held-elem files 5 4
      ((omega arith, (omega arith, (omega arith, tt))), ((omega arith, (omega arith, tt)), tt))
      (omega arith) (omega arith)
