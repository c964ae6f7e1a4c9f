-- ===== src/Bloom/Members.antt =====
-- What the filter of src/utils/bloom.rs says of the elements that were inserted.
use fxi.Base.{
  ℕ, zero, suc, ◌+◌, ◌*◌, ◌/◌, ◌%◌, ◌^◌, ◌<◌, ◌≡◌, refl, arith, ◌⊎◌, inl, inr, true, List, [], ◌∷◌,
  length, length-set, Bool-cases, ◌++◌, length-replicate, sym,
}
use native.Mathlib.Nat.{mod-lt}
use fxi.Bloom.{
  BloomFilter, with_params, set_bit, test_bit, bit_index, insert_loop, insert, contain_loop,
  might_contain, might_contain_all, merge,
}
use fxi.Bloom.Words.{test_bit-set_bit_self, test_bit-set_bit_keeps, test_bit-merge_words}

-- The words are those of the bits, and there is at least one.
abbrev pub IsSized : BloomFilter → Type 0
IsSized f = (f.num_bits ≡ length f.bits * 64) × (0 < f.num_bits)

module _ (hash_pair : ℕ → ℕ × ℕ) where
  -- self.insert for each of the items.
  unfoldable pub insert_all : BloomFilter → List ℕ → BloomFilter
  insert_all f [] = f
  insert_all f (item ∷ items) = insert_all (insert hash_pair f item) items

  length-set_bit : (bits : List ℕ) (index : ℕ) → length (set_bit bits index) ≡ length bits
  unfolding set_bit
  length-set_bit bits index = length-set bits (index / 64) _

  length-insert_loop :
      (f : BloomFilter) (item rounds i : ℕ) (bits : List ℕ)
      → length (insert_loop hash_pair f item rounds i bits) ≡ length bits
  unfolding insert_loop
  length-insert_loop f item zero i bits = refl
  length-insert_loop f item (suc rounds) i bits = omega (
    arith,
    length-set_bit bits (bit_index hash_pair f item i),
    length-insert_loop f item rounds (i + 1) (set_bit bits (bit_index hash_pair f item i)),
  )

  bit_index-lt :
      (f : BloomFilter) (item i : ℕ) → IsSized f → bit_index hash_pair f item i / 64 < length f.bits
  bit_index-lt f item i (e, p) =
      omega (arith, mod-lt ((((hash_pair item).0 + i * (hash_pair item).1 % 2 ^ 64) % 2 ^ 64)) p)

  same_index :
      (f g : BloomFilter) (item i : ℕ)
      → f.num_bits ≡ g.num_bits
      → bit_index hash_pair f item i ≡ bit_index hash_pair g item i
  same_index f g item i n = rw n refl

  insert_loop-keeps :
      (f : BloomFilter) (item rounds i : ℕ) (bits : List ℕ) (index : ℕ)
      → test_bit bits index ≡ true
      → test_bit (insert_loop hash_pair f item rounds i bits) index ≡ true
  unfolding insert_loop
  insert_loop-keeps f item zero i bits index h = h
  insert_loop-keeps f item (suc rounds) i bits index h =
      insert_loop-keeps f item rounds (i + 1) (set_bit bits (bit_index hash_pair f item i)) index
        (test_bit-set_bit_keeps bits (bit_index hash_pair f item i) index h)

  -- Filters of the same shape, where the second has every bit of the first.
  abbrev Grows : BloomFilter → BloomFilter → Type 0
  Grows f g =
      (f.num_bits ≡ g.num_bits)
      × (f.num_hashes ≡ g.num_hashes)
      × ((index : ℕ) → test_bit f.bits index ≡ true → test_bit g.bits index ≡ true)

  contain_loop-Grows :
      (f g : BloomFilter) (item rounds i : ℕ)
      → Grows f g
      → contain_loop hash_pair f item rounds i ≡ true
      → contain_loop hash_pair g item rounds i ≡ true
  unfolding contain_loop
  contain_loop-Grows f g item zero i h e = refl
  contain_loop-Grows f g item (suc rounds) i (n, k, more) e =
      let ih = contain_loop-Grows f g item rounds (i + 1) (n, k, more) in
      let same = same_index f g item i n in
      elim (Bool-cases (test_bit f.bits (bit_index hash_pair f item i))) [
        | inl t ↦
            let there = rw same at (more (bit_index hash_pair f item i) t) in
            rw there (ih (rw t at (e)))
        | inr t ↦ absurd (ground arith)
      ]

  might_contain-Grows :
      (f g : BloomFilter) (item : ℕ)
      → Grows f g
      → might_contain hash_pair f item ≡ true
      → might_contain hash_pair g item ≡ true
  unfolding might_contain
  might_contain-Grows f g item (n, k, more) e =
      rw k at (contain_loop-Grows f g item f.num_hashes 0 (n, k, more) e)

  -- The bits that an insertion of all rounds leaves are those that the test of all rounds reads.
  contain_loop-insert_loop :
      (f g : BloomFilter) (item rounds i : ℕ) (bits : List ℕ)
      → IsSized f
      → f.num_bits ≡ g.num_bits
      → length bits ≡ length f.bits
      → g.bits ≡ insert_loop hash_pair f item rounds i bits
      → contain_loop hash_pair g item rounds i ≡ true
  unfolding contain_loop insert_loop
  contain_loop-insert_loop f g item zero i bits s n l e = refl
  contain_loop-insert_loop f g item (suc rounds) i bits s n l e =
      let index = bit_index hash_pair f item i in
      let set_here = test_bit-set_bit_self bits index (rw l (bit_index-lt f item i s)) in
      let kept = insert_loop-keeps f item rounds (i + 1) (set_bit bits index) index set_here in
      let ih =
        contain_loop-insert_loop f g item rounds (i + 1) (set_bit bits index) s n
          (omega (arith, length-set_bit bits index)) e in
      let there = rw (← e, same_index f g item i n) at (kept) in rw there ih

  contains-insert :
      (f : BloomFilter) (item : ℕ)
      → IsSized f
      → might_contain hash_pair (insert hash_pair f item) item ≡ true
  unfolding might_contain insert
  contains-insert f item s =
      contain_loop-insert_loop f (insert hash_pair f item) item f.num_hashes 0 f.bits s refl refl
        refl

  insert-Grows : (f : BloomFilter) (item : ℕ) → Grows f (insert hash_pair f item)
  unfolding insert
  insert-Grows f item = (refl, refl, insert_loop-keeps f item f.num_hashes 0 f.bits)

  insert-IsSized : (f : BloomFilter) (item : ℕ) → IsSized f → IsSized (insert hash_pair f item)
  unfolding insert
  insert-IsSized f item (e, p) = (omega (arith, length-insert_loop f item f.num_hashes 0 f.bits), p)

  insert_all-keeps :
      (f : BloomFilter) (items : List ℕ) (item : ℕ)
      → might_contain hash_pair f item ≡ true
      → might_contain hash_pair (insert_all f items) item ≡ true
  unfolding insert_all
  insert_all-keeps f [] item h = h
  insert_all-keeps f (x ∷ xs) item h =
      insert_all-keeps (insert hash_pair f x) xs item
        (might_contain-Grows f (insert hash_pair f x) item (insert-Grows f x) h)

  might_contain_all-insert_all_at :
      (f : BloomFilter) (items : List ℕ)
      → IsSized f
      → might_contain_all hash_pair (insert_all f items) items ≡ true
  unfolding insert_all might_contain_all
  might_contain_all-insert_all_at f [] s = refl
  might_contain_all-insert_all_at f (x ∷ xs) s =
      let ih = might_contain_all-insert_all_at (insert hash_pair f x) xs (insert-IsSized f x s) in
      let here = insert_all-keeps (insert hash_pair f x) xs x (contains-insert f x s) in rw here ih

  might_contain_all-append :
      (f : BloomFilter) (older items : List ℕ)
      → might_contain_all hash_pair f older ≡ true
      → IsSized f
      → might_contain_all hash_pair (insert_all f items) (older ++ items) ≡ true
  unfolding might_contain_all
  might_contain_all-append f [] items h s = might_contain_all-insert_all_at f items s
  might_contain_all-append f (x ∷ older) items h s =
      elim (Bool-cases (might_contain hash_pair f x)) [
        | inl e ↦
            rw (insert_all-keeps f items x e)
              (might_contain_all-append f older items (rw e at (h)) s)
        | inr e ↦ absurd (ground arith)
      ]

  -- No false negatives: if a filter, whose bits are those of its words, at least one, might contain
  -- all of some items, then after any further items have been inserted it might contain all of
  -- both.
  pub might_contain_all-insert_all :
      (f : BloomFilter) (older items : List ℕ)
      → IsSized f
      → might_contain_all hash_pair f older ≡ true
      → might_contain_all hash_pair (insert_all f items) (older ++ items) ≡ true
  might_contain_all-insert_all f older items s h = might_contain_all-append f older items h s

  -- The union of two filters of one shape might contain what either of them might contain.
  pub might_contain-merge :
      (f g : BloomFilter) (item : ℕ)
      → f.num_bits ≡ g.num_bits
      → f.num_hashes ≡ g.num_hashes
      → length f.bits ≡ length g.bits
      → (might_contain hash_pair f item ≡ true) ⊎ (might_contain hash_pair g item ≡ true)
      → might_contain hash_pair (merge f g) item ≡ true
  unfolding merge
  might_contain-merge f g item n k l (inl h) =
      might_contain-Grows f (merge f g) item
        (refl, refl, λ index. λ t. test_bit-merge_words f.bits g.bits index l (inl t)) h
  might_contain-merge f g item n k l (inr h) =
      might_contain-Grows g (merge f g) item
        (sym n, sym k, λ index. λ t. test_bit-merge_words f.bits g.bits index l (inr t)) h

  -- A filter of at least one bit with given parameters is well sized, which makes the above apply to it.
  pub with_params-IsSized :
      (num_bits num_hashes : ℕ) → 0 < num_bits → IsSized (with_params num_bits num_hashes)
  unfolding with_params
  with_params-IsSized num_bits num_hashes h =
      (omega (arith, length-replicate {A = ℕ} ((num_bits + 63) / 64) 0), omega arith)
