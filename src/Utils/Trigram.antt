-- ===== src/Utils/Trigram.antt =====
-- src/utils/trigram.rs: the trigrams of a content and of a query, and the tests for binary and
-- minified contents.
pub mod Digits
pub mod Full
pub mod Sparse
pub mod Windows
pub mod Strategies
pub mod Substrings
mod Runs
use fxi.Base.{
  ℕ, zero, suc, ◌+◌, ◌-◌, ◌*◌, ◌/◌, ◌%◌, ◌^◌, ◌≡◌, min, max, bit_and, bit_or, Bool, true, false,
  not, ◌&&◌, ◌||◌, Option, none, some, List, [], ◌∷◌, ◌++◌, length, get_or, set, replicate, ltb,
  leb, ◌==◌, if◌then◌else◌,
}
use fxi.Base.Keys.{nat_eq, mem, find, put}
use fxi.Base.Sorting.{sort, dedup}
use fxi.Query.Text.{Str}
use fxi.Utils.Tokenizer.{u32, as_bytes, take}

-- Three bytes as a number, and back.
unfoldable pub bytes_to_trigram : ℕ → ℕ → ℕ → ℕ
bytes_to_trigram b0 b1 b2 = bit_or (bit_or (u32 (b0 * 2 ^ 16)) (u32 (b1 * 2 ^ 8))) b2

unfoldable pub trigram_to_bytes : ℕ → ℕ × ℕ × ℕ
trigram_to_bytes t =
    (bit_and (t / 2 ^ 16) 0xff % 256, bit_and (t / 2 ^ 8) 0xff % 256, bit_and t 0xff % 256)

-- content.windows(3), each as a trigram
unfoldable pub trigrams_of : List ℕ → List ℕ
unfolding bytes_to_trigram
trigrams_of [] = []
trigrams_of (a ∷ []) = []
trigrams_of (a ∷ b ∷ []) = []
trigrams_of (a ∷ b ∷ c ∷ rest) = bytes_to_trigram a b c ∷ trigrams_of (b ∷ c ∷ rest)

-- w.trailing_zeros() of a word of `bits` bits.
unfoldable pub trailing_zeros : (bits : ℕ) → ℕ → ℕ
trailing_zeros zero w = 0
trailing_zeros (suc bits) w =
    let rest = trailing_zeros bits (w / 2) in if w % 2 == 1 then 0 else suc rest

-- The loop over the bits of a word: the lowest bit is reported and taken out.
unfoldable pub collect_word : (fuel : ℕ) → (base w : ℕ) → List ℕ
unfolding trailing_zeros
collect_word zero base w = []
collect_word (suc fuel) base w =
    let rest = collect_word fuel base (bit_and w (w - 1)) in
    if w == 0 then [] else bit_or base (trailing_zeros 64 w) ∷ rest

-- FullTrigramBitset
pub record FullTrigramBitset : Type 0 where
  pub bits : List ℕ

unfoldable pub new_full : FullTrigramBitset
new_full = record { bits = replicate 262144 0 }

unfoldable pub set_full : FullTrigramBitset → ℕ → FullTrigramBitset
set_full b trigram =
    let idx = trigram / 2 ^ 6 in
    let bit = 2 ^ bit_and trigram 63 in
    record { bits = set b.bits idx (bit_or (get_or b.bits idx 0) bit) }

abbrev pub collect_words : (idx : ℕ) → List ℕ → List ℕ
collect_words idx [] = []
collect_words idx (word ∷ words) =
    let rest = collect_words (idx + 1) words in
    if word == 0 then rest else collect_word 64 (u32 (u32 idx * 2 ^ 6)) word ++ rest

unfoldable pub collect_full : FullTrigramBitset → List ℕ
unfolding collect_word
collect_full b = collect_words 0 b.bits

abbrev pub set_all : List ℕ → FullTrigramBitset → FullTrigramBitset
set_all [] b = b
set_all (t ∷ ts) b = set_all ts (set_full b t)

-- SparseTrigramBitset: the words that are not 0, by their index.
abbrev pub Blocks : Type 0
Blocks = List (ℕ × ℕ)

abbrev pub or_zero : Option ℕ → ℕ
or_zero none = 0
or_zero (some w) = w

-- Whether the trigram was there, and the bitset with it.
unfoldable pub test_and_set : Blocks → ℕ → Bool × Blocks
test_and_set blocks trigram =
    let block_idx = trigram / 2 ^ 6 in
    let bit = 2 ^ bit_and trigram 63 in
    let word = or_zero (find block_idx blocks) in
    (not (bit_and word bit == 0), put block_idx (bit_or word bit) blocks)

unfoldable pub collect_blocks : Blocks → List ℕ
unfolding collect_word
collect_blocks [] = []
collect_blocks ((block_idx, word) ∷ blocks) =
    collect_word 64 (u32 (block_idx * 2 ^ 6)) word ++ collect_blocks blocks

abbrev pub test_and_set_all : List ℕ → Blocks → Blocks
test_and_set_all [] blocks = blocks
test_and_set_all (t ∷ ts) blocks = test_and_set_all ts (test_and_set blocks t).1

-- The hash set.
abbrev pub insert_each : List ℕ → List ℕ → List ℕ
insert_each [] seen = seen
insert_each (t ∷ ts) seen = insert_each ts (if mem t seen then seen else seen ++ (t ∷ []))

abbrev pub any_block : (ℕ → ℕ → Bool) → Blocks → Bool
any_block test [] = false
any_block test ((k, w) ∷ blocks) = test k w || any_block test blocks

-- The order in which the `ahash` package gives the items of a set and of a map.
pub record HashOrder : Type 0 where
  pub set_order : List ℕ → List ℕ
  pub map_order : Blocks → Blocks
  pub mem-set_order : (n : ℕ) (seen : List ℕ) → mem n (set_order seen) ≡ mem n seen
  pub any_block-map_order :
      (test : ℕ → ℕ → Bool) (blocks : Blocks)
      → any_block test (map_order blocks) ≡ any_block test blocks

unfoldable pub extract_trigrams : HashOrder → List ℕ → List ℕ
unfolding trigrams_of sort dedup new_full set_full collect_full test_and_set collect_blocks
extract_trigrams order content =
    let len = length content in
    if ltb len 3
    then []
    else if ltb len 4096
    then dedup (sort (trigrams_of content))
    else if ltb len 100000
    then HashOrder.set_order order (insert_each (trigrams_of content) [])
    else if ltb len 1000000
    then collect_blocks (HashOrder.map_order order (test_and_set_all (trigrams_of content) []))
    else collect_full (set_all (trigrams_of content) new_full)

unfoldable pub query_trigrams : Str → List ℕ
unfolding trigrams_of sort dedup
query_trigrams query =
    let bytes = as_bytes query in
    if ltb (length bytes) 3 then [] else dedup (sort (trigrams_of bytes))

abbrev with_positions : ℕ → List ℕ → List (ℕ × ℕ)
with_positions pos [] = []
with_positions pos (t ∷ ts) = (t, pos) ∷ with_positions (pos + 1) ts

unfoldable pub extract_trigrams_with_positions : List ℕ → List (ℕ × ℕ)
unfolding trigrams_of
extract_trigrams_with_positions content =
    if ltb (length content) 3 then [] else with_positions 0 (trigrams_of content)

-- iter().filter(test).count()
unfoldable pub count_bytes : (ℕ → Bool) → List ℕ → ℕ
count_bytes test [] = 0
count_bytes test (b ∷ bs) = let rest = count_bytes test bs in if test b then suc rest else rest

abbrev pub is_control : ℕ → Bool
is_control b = ltb b 0x20 && (not (b == b'\n') && (not (b == b'\r') && not (b == b'\t')))

unfoldable pub is_binary : List ℕ → Bool
unfolding count_bytes
is_binary content =
    let sample_size = min (length content) 8192 in
    let sample = take sample_size content in
    if ltb (sample_size / 10) (count_bytes (λ b. b == 0) sample)
    then true
    else ltb (sample_size / 8) (count_bytes is_control sample)

pub record LineLengths : Type 0 where
  pub line_length : ℕ
  pub max_line_length : ℕ
  pub line_count : ℕ

abbrev pub measure : List ℕ → LineLengths → LineLengths
measure [] s = s
measure (byte ∷ bytes) s = measure bytes (
    if byte == b'\n'
    then record {
      line_length = 0;
      max_line_length = max s.max_line_length s.line_length;
      line_count = s.line_count + 1;
    }
    else record s { line_length = s.line_length + 1 })

unfoldable pub is_minified : List ℕ → Bool
is_minified content =
    let s =
      measure (take 65536 content)
        (record { line_length = 0; max_line_length = 0; line_count = 0 }) in
    let avg_line = min (length content) 65536 / (s.line_count + 1) in
    if ltb 0 s.line_count
    then ltb 1000 s.max_line_length && ltb 500 avg_line
    else ltb 10240 (length content)
