-- ===== src/Utils/Trigram/Runs.antt =====
-- The trigrams of concrete texts, and the theorems at them.
use fxi.Base.{ℕ, ◌≡◌, refl, arith, true, false, List, [], ◌∷◌}
use fxi.Base.Keys.{nat_eq, mem}
use fxi.Base.Sorting.{sort, dedup}
use fxi.Query.Text.{codes}
use fxi.Utils.Tokenizer.{encode}
use fxi.Utils.Trigram.{
  bytes_to_trigram, trigrams_of, HashOrder, extract_trigrams, query_trigrams, test_and_set,
  test_and_set_all, collect_blocks, collect_word, trailing_zeros, is_binary, is_minified,
  count_bytes,
}
use fxi.Utils.Trigram.Windows.{AreBytes}
use fxi.Utils.Trigram.Strategies.{mem-extract_trigrams}
use fxi.Utils.Trigram.Substrings.{query_trigrams-extract_trigrams}

abbrev in_order : HashOrder
in_order = record {
  set_order = λ seen. seen;
  map_order = λ blocks. blocks;
  mem-set_order = λ n. λ seen. refl;
  any_block-map_order = λ test. λ blocks. refl;
}

abbrev hello : List ℕ
hello = 104 ∷ 101 ∷ 108 ∷ 108 ∷ 111 ∷ 104 ∷ 101 ∷ 108 ∷ []

hello_trigrams :
    extract_trigrams in_order hello ≡ 6646892 ∷ 6841708 ∷ 7105647 ∷ 7106408 ∷ 7301221 ∷ []
unfolding extract_trigrams trigrams_of bytes_to_trigram sort dedup
hello_trigrams = refl

sparse_trigrams :
    collect_blocks (test_and_set_all (130 ∷ 65 ∷ 131 ∷ 130 ∷ []) []) ≡ 130 ∷ 131 ∷ 65 ∷ []
unfolding collect_blocks test_and_set collect_word trailing_zeros
sparse_trigrams = refl

binary : is_binary (0 ∷ 0 ∷ hello) ≡ true
unfolding is_binary count_bytes
binary = refl

text : is_binary hello ≡ false
unfolding is_binary count_bytes
text = refl

short_lines : is_minified hello ≡ false
unfolding is_minified
short_lines = refl

abbrev hello_bytes : AreBytes hello
hello_bytes = (
  omega arith,
  (
    omega arith,
    (omega arith, (omega arith, (omega arith, (omega arith, (omega arith, (omega arith, tt)))))),
  ),
)

mem-extract_trigrams_example :
    mem 7105647 (extract_trigrams in_order hello) ≡ mem 7105647 (trigrams_of hello)
mem-extract_trigrams_example = mem-extract_trigrams in_order hello hello_bytes 7105647

query_trigrams-extract_trigrams_example : mem 7105647 (extract_trigrams in_order hello) ≡ true
unfolding query_trigrams trigrams_of bytes_to_trigram sort dedup encode
query_trigrams-extract_trigrams_example =
    query_trigrams-extract_trigrams in_order (codes "ello") hello 7105647 hello_bytes refl refl
