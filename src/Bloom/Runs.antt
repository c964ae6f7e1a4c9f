-- ===== src/Bloom/Runs.antt =====
-- Runs of src/utils/bloom.rs, and its theorems at concrete inputs.
use fxi.Base.{ℕ, ◌+◌, ◌≡◌, refl, arith, true, false, [], ◌∷◌}
use fxi.Bloom.{
  BloomFilter, with_params, insert, insert_loop, set_bit, might_contain, might_contain_all,
  contain_loop, test_bit,
}
use fxi.Bloom.Members.{insert_all, might_contain_all-insert_all}

abbrev hashes : ℕ → ℕ × ℕ
hashes item = (item, item + 1)

abbrev fresh : BloomFilter
fresh = with_params 100 3

might_contain_5 : might_contain hashes (insert hashes fresh 5) 5 ≡ true
unfolding might_contain contain_loop test_bit insert insert_loop set_bit with_params
might_contain_5 = refl

might_contain_6 : might_contain hashes (insert hashes fresh 5) 6 ≡ false
unfolding might_contain contain_loop test_bit insert insert_loop set_bit with_params
might_contain_6 = refl

might_contain_all_5 : might_contain_all hashes (insert hashes fresh 5) (5 ∷ []) ≡ true
unfolding might_contain_all might_contain contain_loop test_bit insert insert_loop set_bit
    with_params
might_contain_all_5 = refl

might_contain_all-insert_all_example :
    might_contain_all hashes
      (insert_all hashes (insert hashes fresh 5) (6 ∷ 9 ∷ []))
      (5 ∷ 6 ∷ 9 ∷ [])
    ≡ true
unfolding insert insert_loop with_params set_bit
might_contain_all-insert_all_example =
    might_contain_all-insert_all hashes (insert hashes fresh 5) (5 ∷ []) (6 ∷ 9 ∷ [])
      (refl, omega arith) might_contain_all_5
