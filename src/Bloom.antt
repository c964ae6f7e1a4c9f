-- ===== src/Bloom.antt =====
-- src/utils/bloom.rs: the bloom filter. A word is a number below 2 ^ 64.
pub mod Words
pub mod Members
mod Runs
use fxi.Base.{
  ℕ, zero, suc, ◌+◌, ◌*◌, ◌/◌, ◌%◌, ◌^◌, bit_and, bit_or, Bool, true, false, List, [], ◌∷◌, length,
  get_or, set, replicate, ◌==◌, if◌then◌else◌,
}

pub record BloomFilter : Type 0 where
  pub bits : List ℕ
  pub num_bits : ℕ
  pub num_hashes : ℕ

abbrev pub div_ceil : ℕ → ℕ
div_ceil n = (n + 63) / 64

unfoldable pub with_params : (num_bits num_hashes : ℕ) → BloomFilter
with_params num_bits num_hashes = record {
  bits = replicate (div_ceil num_bits) 0;
  num_bits = div_ceil num_bits * 64;
  num_hashes = num_hashes;
}

unfoldable pub from_raw : List ℕ → ℕ → BloomFilter
from_raw bits num_hashes = record {
  bits = bits;
  num_bits = length bits * 64;
  num_hashes = num_hashes;
}

-- self.bits[word_index] |= 1 << bit_offset
unfoldable pub set_bit : List ℕ → ℕ → List ℕ
set_bit bits index = set bits (index / 64) (bit_or (get_or bits (index / 64) 0) (2 ^ (index % 64)))

-- (self.bits[word_index] & (1 << bit_offset)) != 0
unfoldable pub test_bit : List ℕ → ℕ → Bool
test_bit bits index =
    if bit_and (get_or bits (index / 64) 0) (2 ^ (index % 64)) == 0 then false else true

-- `hash_pair` stands for the two hashers of the `ahash` package.
module _ (hash_pair : ℕ → ℕ × ℕ) where
  -- h1.wrapping_add(i.wrapping_mul(h2)) as usize % num_bits
  abbrev pub bit_index : BloomFilter → ℕ → ℕ → ℕ
  bit_index f item i = let (h1, h2) = hash_pair item in (h1 + i * h2 % 2 ^ 64) % 2 ^ 64 % f.num_bits

  -- The loop over 0..num_hashes, with `rounds` of them left.
  unfoldable pub insert_loop : BloomFilter → ℕ → (rounds i : ℕ) → List ℕ → List ℕ
  insert_loop f item zero i bits = bits
  insert_loop f item (suc rounds) i bits =
      insert_loop f item rounds (i + 1) (set_bit bits (bit_index f item i))

  unfoldable pub insert : BloomFilter → ℕ → BloomFilter
  unfolding insert_loop
  insert f item = record f { bits = insert_loop f item f.num_hashes 0 f.bits }

  unfoldable pub contain_loop : BloomFilter → ℕ → (rounds i : ℕ) → Bool
  unfolding test_bit
  contain_loop f item zero i = true
  contain_loop f item (suc rounds) i =
      let more = contain_loop f item rounds (i + 1) in
      if test_bit f.bits (bit_index f item i) then more else false

  unfoldable pub might_contain : BloomFilter → ℕ → Bool
  unfolding contain_loop
  might_contain f item = contain_loop f item f.num_hashes 0

  unfoldable pub might_contain_all : BloomFilter → List ℕ → Bool
  might_contain_all f [] = true
  might_contain_all f (item ∷ items) =
      let more = might_contain_all f items in if might_contain f item then more else false

-- The words of `merge`, as far as both filters have them.
unfoldable pub merge_words : List ℕ → List ℕ → List ℕ
merge_words [] ys = []
merge_words (a ∷ xs) [] = a ∷ xs
merge_words (a ∷ xs) (b ∷ ys) = bit_or a b ∷ merge_words xs ys

unfoldable pub merge : BloomFilter → BloomFilter → BloomFilter
unfolding merge_words
merge f g = record f { bits = merge_words f.bits g.bits }
