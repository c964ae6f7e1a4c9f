-- ===== src/Utils/Trigram/Full.antt =====
-- FullTrigramBitset holds the trigrams that were set.
use fxi.Base.{
  ℕ, zero, suc, ◌+◌, ◌*◌, ◌/◌, ◌%◌, ◌^◌, ◌≤◌, ◌<◌, ◌≡◌, refl, ap, ◌∙◌, arith, bit_and, bit_or, Bool,
  false, ◌||◌, List, [], ◌∷◌, length, get_or, set, replicate, All, ◌==◌, Bool-cases, inl, inr,
}
use fxi.Base.Keys.{nat_eq, mem, mem-append}
use fxi.Base.Bits.{bit_and_ones, digit-bit_or, bit_or-lt, two_pow, two_pow_pos}
use fxi.Utils.Tokenizer.{u32}
use fxi.Utils.Trigram.{
  FullTrigramBitset, new_full, set_full, set_all, collect_word, collect_words, collect_full,
}
use fxi.Utils.Trigram.Digits.{bit, bit-suc, no_bit, in_word, mem-collect_word}

pub bit-two_pow : (j k : ℕ) → bit (2 ^ j) k ≡ (j == k)
bit-two_pow zero zero = refl
bit-two_pow zero (suc k) = let h = bit-suc 1 k ∙ no_bit k in ground arith
bit-two_pow (suc j) zero = ground (arith, two_pow j)
bit-two_pow (suc j) (suc k) =
    let half : 2 ^ suc j / 2 ≡ 2 ^ j = omega (arith, two_pow j) in
    let ih = bit-two_pow j k in bit-suc (2 ^ suc j) k ∙ ap (λ (t : ℕ). bit t k) half ∙ ground arith

pub bit-bit_or : (w j k : ℕ) → bit (bit_or w (2 ^ j)) k ≡ (bit w k || j == k)
bit-bit_or w j k = let one = bit-two_pow j k in ground (arith, digit-bit_or k w (2 ^ j))

two_pow-lt : (j k : ℕ) → j < k → 2 ^ j < 2 ^ k
two_pow-lt j zero h = absurd (omega arith)
two_pow-lt zero (suc k) h = omega (arith, two_pow k, two_pow_pos k)
two_pow-lt (suc j) (suc k) h = omega (arith, two_pow j, two_pow k, two_pow-lt j k (omega arith))

-- The bit that stands for a trigram.
abbrev pub own_bit : ℕ → ℕ
own_bit trigram = 2 ^ bit_and trigram 63

pub own_bit-lt : (w t : ℕ) → w < 2 ^ 64 → bit_or w (own_bit t) < 2 ^ 64
own_bit-lt w t h =
    bit_or-lt 64 w (own_bit t) h (two_pow-lt (bit_and t 63) 64 (omega (arith, bit_and_ones 6 t)))

pub in_word-own_bit :
    (n t idx w : ℕ)
    → t / 64 ≡ idx
    → in_word n idx (bit_or w (own_bit t)) ≡ (in_word n idx w || n == t)
in_word-own_bit n t idx w h =
    let here = bit-bit_or w (bit_and t 63) (n % 64) in
    let low : bit_and t 63 ≡ t % 64 = bit_and_ones 6 t in ground arith

pub in_word-zero : (n idx : ℕ) → in_word n idx 0 ≡ false
in_word-zero n idx = let none_set = no_bit (n % 64) in ground arith

unfoldable in_words : (n idx : ℕ) → List ℕ → Bool
in_words n idx [] = false
in_words n idx (w ∷ ws) = in_word n idx w || in_words n (idx + 1) ws

in_words-set :
    (n t idx i : ℕ) (ws : List ℕ)
    → i < length ws
    → t / 64 ≡ idx + i
    → in_words n idx (set ws i (bit_or (get_or ws i 0) (own_bit t))) ≡ (in_words n idx ws || n == t)
unfolding in_words
in_words-set n t idx i [] short h = absurd (omega arith)
in_words-set n t idx zero (w ∷ ws) short h =
    let here = in_word-own_bit n t idx w (omega arith) in ground arith
in_words-set n t idx (suc i) (w ∷ ws) short h =
    let ih = in_words-set n t (idx + 1) i ws (omega arith) (omega arith) in ground arith

length-set : (ws : List ℕ) (i v : ℕ) → length (set ws i v) ≡ length ws
length-set [] i v = refl
length-set (w ∷ ws) zero v = refl
length-set (w ∷ ws) (suc i) v = ap suc (length-set ws i v)

wide-set :
    (t i : ℕ) (ws : List ℕ)
    → All (λ w. w < 2 ^ 64) ws
    → All (λ w. w < 2 ^ 64) (set ws i (bit_or (get_or ws i 0) (own_bit t)))
wide-set t i [] h = tt
wide-set t zero (w ∷ ws) (wide, h) = (own_bit-lt w t wide, h)
wide-set t (suc i) (w ∷ ws) (wide, h) = (wide, wide-set t i ws h)

mem-collect_words :
    (idx n : ℕ) (ws : List ℕ)
    → idx + length ws ≤ 2 ^ 26
    → All (λ w. w < 2 ^ 64) ws
    → mem n (collect_words idx ws) ≡ in_words n idx ws
unfolding in_words
mem-collect_words idx n [] small h = refl
mem-collect_words idx n (w ∷ ws) small (wide, h) =
    let ih = mem-collect_words (idx + 1) n ws (omega arith) h in
    let short : u32 idx ≡ idx = omega arith in
    elim (Bool-cases (w == 0)) [
      | inl e ↦ let empty : w ≡ 0 = ground arith in rw (e, empty, in_word-zero n idx) ih
      | inr e ↦
          rw
            (
              e,
              short,
              mem-append n (collect_word 64 (u32 (idx * 2 ^ 6)) w) (collect_words (idx + 1) ws),
              mem-collect_word idx w n (omega arith) wide,
              ih,
            )
            refl
    ]

length-replicate : (k v : ℕ) → length (replicate k v) ≡ k
length-replicate zero v = refl
length-replicate (suc k) v = ap suc (length-replicate k v)

in_words-replicate : (n idx k : ℕ) → in_words n idx (replicate k 0) ≡ false
unfolding in_words
in_words-replicate n idx zero = refl
in_words-replicate n idx (suc k) = rw (in_word-zero n idx) (in_words-replicate n (idx + 1) k)

wide-replicate : (k : ℕ) → All (λ w. w < 2 ^ 64) (replicate k 0)
wide-replicate zero = tt
wide-replicate (suc k) = (omega arith, wide-replicate k)

abbrev HasWords : FullTrigramBitset → Type 0
HasWords b = (length b.bits ≡ 262144) × All (λ w. w < 2 ^ 64) b.bits

set_full-HasWords : (b : FullTrigramBitset) (t : ℕ) → HasWords b → HasWords (set_full b t)
unfolding set_full
set_full-HasWords b t (len, wide) = (
  length-set b.bits (t / 64) (bit_or (get_or b.bits (t / 64) 0) (own_bit t)) ∙ len,
  wide-set t (t / 64) b.bits wide,
)

in_words-set_full :
    (n t : ℕ) (b : FullTrigramBitset)
    → t < 2 ^ 24
    → HasWords b
    → in_words n 0 (set_full b t).bits ≡ (in_words n 0 b.bits || n == t)
unfolding set_full
in_words-set_full n t b small (len, wide) =
    in_words-set n t 0 (t / 64) b.bits (omega arith) (omega arith)

mem-set_all :
    (n : ℕ) (ts : List ℕ) (b : FullTrigramBitset)
    → All (λ t. t < 2 ^ 24) ts
    → HasWords b
    → mem n (collect_full (set_all ts b)) ≡ (in_words n 0 b.bits || mem n ts)
unfolding collect_full
mem-set_all n [] b small (len, wide) =
    mem-collect_words 0 n b.bits (omega arith) wide ∙ ground arith
mem-set_all n (t ∷ ts) b (small, more) has =
    let ih = mem-set_all n ts (set_full b t) more (set_full-HasWords b t has) in
    let here = in_words-set_full n t b small has in ground arith

pub mem-set_all_new :
    (n : ℕ) (ts : List ℕ)
    → All (λ t. t < 2 ^ 24) ts
    → mem n (collect_full (set_all ts new_full)) ≡ mem n ts
unfolding new_full
mem-set_all_new n ts small =
    let h = mem-set_all n ts new_full small (length-replicate 262144 0, wide-replicate 262144) in
    let none_set = in_words-replicate n 0 262144 in ground arith
