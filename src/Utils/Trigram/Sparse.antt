-- ===== src/Utils/Trigram/Sparse.antt =====
-- SparseTrigramBitset holds the trigrams that were set.
use fxi.Base.{
  ℕ, ◌*◌, ◌/◌, ◌^◌, ◌<◌, ◌≡◌, refl, subst, ap, ◌∙◌, arith, bit_or, Bool, false, ◌||◌, some, List,
  [], ◌∷◌, All, leb, ◌==◌, if◌then◌else◌, Bool-cases, inl, inr,
}
use fxi.Base.Keys.{nat_eq, mem, mem-append, find, put}
use fxi.Utils.Tokenizer.{u32}
use fxi.Utils.Trigram.{
  Blocks, or_zero, test_and_set, test_and_set_all, collect_word, collect_blocks, any_block,
  HashOrder,
}
use fxi.Utils.Trigram.Digits.{in_word, mem-collect_word}
use fxi.Utils.Trigram.Full.{own_bit, own_bit-lt, in_word-own_bit, in_word-zero}

-- A word or an index that is too large.
abbrev bad : ℕ → ℕ → Bool
bad k w = leb (2 ^ 26) k || leb (2 ^ 64) w

in_blocks-put :
    (n t idx v : ℕ) (blocks : Blocks)
    → in_word n idx v ≡ (in_word n idx (or_zero (find idx blocks)) || n == t)
    → any_block (in_word n) (put idx v blocks) ≡ (any_block (in_word n) blocks || n == t)
in_blocks-put n t idx v [] h = let z = in_word-zero n idx in ground arith
in_blocks-put n t idx v ((k, w) ∷ blocks) h = elim (Bool-cases (idx == k)) [
  | inl same ↦
      let here : in_word n idx v ≡ (in_word n idx w || n == t) =
        subst
          (λ b.
            in_word n idx v
            ≡ (in_word n idx (or_zero (if b then some w else find idx blocks)) || n == t))
          same h in
      let one : idx ≡ k = ground arith in
      let moved : in_word n idx w ≡ in_word n k w = ap (λ (j : ℕ). in_word n j w) one in
      rw same (ground arith)
  | inr other ↦
      let ih = in_blocks-put n t idx v blocks (
        subst
          (λ b.
            in_word n idx v
            ≡ (in_word n idx (or_zero (if b then some w else find idx blocks)) || n == t))
          other h) in
      rw (other, ih) (ground arith)
]

good-put :
    (idx v : ℕ) (blocks : Blocks)
    → idx < 2 ^ 26
    → v < 2 ^ 64
    → any_block bad blocks ≡ false
    → any_block bad (put idx v blocks) ≡ false
good-put idx v [] small wide good = ground arith
good-put idx v ((k, w) ∷ blocks) small wide good = elim (Bool-cases (idx == k)) [
  | inl same ↦ rw same (ground arith)
  | inr other ↦
      let ih = good-put idx v blocks small wide (ground arith) in rw (other, ih) (ground arith)
]

found-lt :
    (idx : ℕ) (blocks : Blocks) → any_block bad blocks ≡ false → or_zero (find idx blocks) < 2 ^ 64
found-lt idx [] good = omega arith
found-lt idx ((k, w) ∷ blocks) good = elim (Bool-cases (idx == k)) [
  | inl same ↦ rw same (ground arith)
  | inr other ↦ rw other (found-lt idx blocks (ground arith))
]

in_blocks-test_and_set :
    (n t : ℕ) (blocks : Blocks)
    → any_block (in_word n) (test_and_set blocks t).1 ≡ (any_block (in_word n) blocks || n == t)
unfolding test_and_set
in_blocks-test_and_set n t blocks =
    let w = or_zero (find (t / 64) blocks) in
    in_blocks-put n t (t / 64) (bit_or w (own_bit t)) blocks (in_word-own_bit n t (t / 64) w refl)

good-test_and_set :
    (t : ℕ) (blocks : Blocks)
    → t < 2 ^ 24
    → any_block bad blocks ≡ false
    → any_block bad (test_and_set blocks t).1 ≡ false
unfolding test_and_set
good-test_and_set t blocks small good =
    good-put (t / 64) (bit_or (or_zero (find (t / 64) blocks)) (own_bit t)) blocks (omega arith)
      (own_bit-lt (or_zero (find (t / 64) blocks)) t (found-lt (t / 64) blocks good)) good

in_blocks-test_and_set_all :
    (n : ℕ) (ts : List ℕ) (blocks : Blocks)
    → All (λ t. t < 2 ^ 24) ts
    → any_block bad blocks ≡ false
    → (any_block (in_word n) (test_and_set_all ts blocks)
        ≡ (any_block (in_word n) blocks || mem n ts))
      × (any_block bad (test_and_set_all ts blocks) ≡ false)
in_blocks-test_and_set_all n [] blocks small good = (ground arith, good)
in_blocks-test_and_set_all n (t ∷ ts) blocks (small, more) good =
    let (held, still) =
      in_blocks-test_and_set_all n ts (test_and_set blocks t).1 more
        (good-test_and_set t blocks small good) in
    let here = in_blocks-test_and_set n t blocks in (held ∙ ground arith, still)

mem-collect_blocks :
    (n : ℕ) (blocks : Blocks)
    → any_block bad blocks ≡ false
    → mem n (collect_blocks blocks) ≡ any_block (in_word n) blocks
unfolding collect_blocks
mem-collect_blocks n [] good = refl
mem-collect_blocks n ((k, w) ∷ blocks) good =
    let ih = mem-collect_blocks n blocks (ground arith) in
    rw
      (
        mem-append n (collect_word 64 (u32 (k * 2 ^ 6)) w) (collect_blocks blocks),
        mem-collect_word k w n (ground arith) (ground arith),
        ih,
      )
      refl

pub mem-test_and_set_all :
    (order : HashOrder) (n : ℕ) (ts : List ℕ)
    → All (λ t. t < 2 ^ 24) ts
    → mem n (collect_blocks (HashOrder.map_order order (test_and_set_all ts []))) ≡ mem n ts
mem-test_and_set_all order n ts small =
    let (held, good) = in_blocks-test_and_set_all n ts [] small refl in
    let blocks = test_and_set_all ts [] in
    mem-collect_blocks n (HashOrder.map_order order blocks)
      (HashOrder.any_block-map_order order bad blocks ∙ good)
    ∙ HashOrder.any_block-map_order order (in_word n) blocks
    ∙ held
