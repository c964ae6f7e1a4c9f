-- ===== src/Index/Postings/Runs.antt =====
-- Runs of the posting lookups of src/index/reader.rs, and their theorems at concrete inputs.
use fxi.Base.{ℕ, ◌≡◌, sym, ◌&&◌, List, [], ◌∷◌}
use fxi.Base.Keys.{nat_eq}
use fxi.Encoding.Bitmap.Lists.{held, listed}
use fxi.Query.Text.{Str, codes, eq_str, str_eq}
use fxi.Query.Ascii.{ascii}
use fxi.Query.Sets.{elem}
use fxi.Query.Sets.Lists.{lists, held-elem}
use fxi.Index.Postings.{
  Dictionary, get_docs, get_docs_intersect, get_token_docs, get_token_docs_containing,
}
use fxi.Index.Postings.Lookups.{
  has_posting, any_segment, any_containing, get_docs_intersect-get_docs, get_token_docs-any_segment,
}

-- The trigram 9 stands in the documents 2, 3 and 4.
abbrev trigrams : Dictionary ℕ
trigrams = record {
  entries = (9, record { offset = 0; entry_length = 3 }) ∷ [];
  postings = 2 ∷ 1 ∷ 1 ∷ [];
}

abbrev same : List ℕ → List ℕ
same b = b

same_agrees : (b : List ℕ) (d : ℕ) → elem d b ≡ held b d
same_agrees b d = sym (held-elem b d)

get_docs_intersect-get_docs_example :
    elem 3 (get_docs_intersect listed lists same same trigrams 9 (3 ∷ 7 ∷ []))
    ≡ (elem 3 (get_docs listed lists same same trigrams 9) && elem 3 (3 ∷ 7 ∷ []))
get_docs_intersect-get_docs_example =
    get_docs_intersect-get_docs listed lists same same same_agrees held-elem trigrams 9 (3 ∷ 7 ∷ [])
      3

abbrev tokens : List (Dictionary Str)
tokens =
    record {
      entries = (codes "eprintln", record { offset = 0; entry_length = 3 }) ∷ [];
      postings = 2 ∷ 1 ∷ 1 ∷ [];
    }
    ∷ []

get_token_docs-any_segment_example :
    (elem 3 (get_token_docs listed lists same same ascii eq_str tokens (codes "Eprintln"))
      ≡ any_segment (λ (s : Dictionary Str). has_posting s (codes "eprintln") 3) tokens)
    × (elem 3
          (get_token_docs_containing listed lists same same ascii eq_str tokens (codes "Eprintln"))
        ≡ any_segment
            (λ (s : Dictionary Str).
              any_containing eq_str (codes "eprintln") s.postings s.entries 3)
            tokens)
get_token_docs-any_segment_example =
    get_token_docs-any_segment listed lists same same same_agrees held-elem ascii eq_str tokens
      (codes "Eprintln") 3
