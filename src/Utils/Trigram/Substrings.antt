-- ===== src/Utils/Trigram/Substrings.antt =====
-- The trigrams of a query and of a content in which it stands.
use fxi.Base.{ℕ, ◌≡◌, refl, sym, ◌∙◌, arith, true, List, [], ◌∷◌, Bool-cases, inl, inr}
use fxi.Base.Keys.{nat_eq, mem}
use fxi.Query.Text.{Str}
use fxi.Query.Content.{starts, occurs}
use fxi.Utils.Tokenizer.{as_bytes}
use fxi.Utils.Trigram.{bytes_to_trigram, trigrams_of, HashOrder, extract_trigrams, query_trigrams}
use fxi.Utils.Trigram.Windows.{AreBytes}
use fxi.Utils.Trigram.Strategies.{mem-extract_trigrams, mem-query_trigrams}

mem-behind :
    (n b : ℕ) (bytes : List ℕ)
    → mem n (trigrams_of bytes) ≡ true
    → mem n (trigrams_of (b ∷ bytes)) ≡ true
unfolding trigrams_of
mem-behind n b [] h = absurd (ground arith)
mem-behind n b (c ∷ []) h = absurd (ground arith)
mem-behind n b (c ∷ d ∷ bytes) h = ground arith

mem-starts :
    (n : ℕ) (needle hay : List ℕ)
    → starts needle hay ≡ true
    → mem n (trigrams_of needle) ≡ true
    → mem n (trigrams_of hay) ≡ true
unfolding trigrams_of
mem-starts n [] hay s h = absurd (ground arith)
mem-starts n (a ∷ []) hay s h = absurd (ground arith)
mem-starts n (a ∷ b ∷ []) hay s h = absurd (ground arith)
mem-starts n (a ∷ b ∷ c ∷ needle) [] s h = absurd (ground arith)
mem-starts n (a ∷ b ∷ c ∷ needle) (x ∷ []) s h = absurd (ground arith)
mem-starts n (a ∷ b ∷ c ∷ needle) (x ∷ y ∷ []) s h = absurd (ground arith)
mem-starts n (a ∷ b ∷ c ∷ needle) (x ∷ y ∷ z ∷ hay) s h =
    let ih = mem-starts n (b ∷ c ∷ needle) (y ∷ z ∷ hay) in
    let first : a ≡ x = ground arith in
    let second : b ≡ y = ground arith in
    let third : c ≡ z = ground arith in
    let same : bytes_to_trigram a b c ≡ bytes_to_trigram x y z = rw (first, second, third) refl in
    ground arith

mem-occurs :
    (n : ℕ) (needle hay : List ℕ)
    → occurs needle hay ≡ true
    → mem n (trigrams_of needle) ≡ true
    → mem n (trigrams_of hay) ≡ true
mem-occurs n needle [] s h = mem-starts n needle [] s h
mem-occurs n needle (b ∷ hay) s h = elim (Bool-cases (starts needle (b ∷ hay))) [
  | inl e ↦ mem-starts n needle (b ∷ hay) e h
  | inr e ↦ mem-behind n b hay (mem-occurs n needle hay (ground arith) h)
]

-- If the content is bytes and the query's bytes occur in it, then every trigram by which the query
-- looks for documents is among those that are extracted from the content.
pub query_trigrams-extract_trigrams :
    (order : HashOrder) (query : Str) (content : List ℕ) (n : ℕ)
    → AreBytes content
    → occurs (as_bytes query) content ≡ true
    → mem n (query_trigrams query) ≡ true
    → mem n (extract_trigrams order content) ≡ true
query_trigrams-extract_trigrams order query content n are there asked =
    mem-extract_trigrams order content are n
    ∙ mem-occurs n (as_bytes query) content there (sym (mem-query_trigrams query n) ∙ asked)
