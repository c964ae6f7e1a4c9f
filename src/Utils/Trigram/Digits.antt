-- ===== src/Utils/Trigram/Digits.antt =====
-- The loop over the bits of a word reports each bit that is set.
use fxi.Base.{
  ℕ, zero, suc, ◌+◌, ◌-◌, ◌*◌, ◌/◌, ◌%◌, ◌^◌, ◌≤◌, ◌<◌, ◌≡◌, refl, sym, subst, ap, ◌∙◌, arith,
  bit_and, bit_or, Bool, true, false, not, ◌&&◌, ◌||◌, ◌==◌, Bool-cases, inl, inr,
}
use fxi.Base.Keys.{nat_eq, mem}
use fxi.Base.Bits.{bit_and_step, bit_or_high, bit_or_comm, two_pow, div_two_pow}
use fxi.Utils.Tokenizer.{u32}
use fxi.Utils.Trigram.{trailing_zeros, collect_word}

-- Whether bit k of a word is set.
abbrev pub bit : ℕ → ℕ → Bool
bit w k = w / 2 ^ k % 2 == 1

pub bit-suc : (w k : ℕ) → bit w (suc k) ≡ bit (w / 2) k
bit-suc w k = rw (div_two_pow w k) refl

bit_and_self : (bound m : ℕ) → m ≤ bound → bit_and m m ≡ m
bit_and_self zero zero h = refl
bit_and_self zero (suc m) h = absurd (omega arith)
bit_and_self (suc bound) zero h = refl
bit_and_self (suc bound) (suc m) h =
    omega (arith, bit_and_step (suc m) (suc m), bit_and_self bound (suc m / 2) (omega arith))

-- The lowest bit taken out.
abbrev clear : ℕ → ℕ
clear w = bit_and w (w - 1)

clear-odd : (w : ℕ) → w % 2 ≡ 1 → clear w ≡ w / 2 * 2
clear-odd w h =
    let halves : (w - 1) / 2 ≡ w / 2 = omega arith in
    omega (
      arith,
      bit_and_step w (w - 1),
      ap (λ (t : ℕ). bit_and (w / 2) t) halves,
      bit_and_self (w / 2) (w / 2) (omega arith),
    )

clear-even : (w : ℕ) → w % 2 ≡ 0 → 0 < w → clear w ≡ clear (w / 2) * 2
clear-even w h pos =
    let halves : (w - 1) / 2 ≡ w / 2 - 1 = omega arith in
    omega (arith, bit_and_step w (w - 1), ap (λ (t : ℕ). bit_and (w / 2) t) halves)

bit-clear_half : (w v k : ℕ) → clear w / 2 ≡ v → bit (clear w) (suc k) ≡ bit v k
bit-clear_half w v k h = bit-suc (clear w) k ∙ ap (λ (t : ℕ). bit t k) h

pub bit-clear :
    (f w k : ℕ) → 0 < w → w < 2 ^ f → bit (clear w) k ≡ (bit w k && not (k == trailing_zeros f w))
unfolding trailing_zeros
bit-clear zero w k pos h = absurd (omega arith)
bit-clear (suc f) w zero pos h = elim (Bool-cases (w % 2 == 1)) [
  | inl odd ↦ let c = clear-odd w (ground arith) in rw odd (ground arith)
  | inr even ↦ let c = clear-even w (ground arith) pos in rw even (ground arith)
]
bit-clear (suc f) w (suc k) pos h = elim (Bool-cases (w % 2 == 1)) [
  | inl odd ↦
      let c = clear-odd w (ground arith) in
      let here = bit-clear_half w (w / 2) k (omega arith) ∙ sym (bit-suc w k) in
      rw odd (ground arith)
  | inr even ↦
      let c = clear-even w (ground arith) pos in
      let here = bit-clear_half w (clear (w / 2)) k (omega arith) in
      let ih = bit-clear f (w / 2) k (ground arith) (omega (arith, two_pow f)) in
      let there = bit-suc w k in rw even (ground arith)
]

clear-le : (f w : ℕ) → 0 < w → w < 2 ^ f → clear w < w
clear-le zero w pos h = absurd (omega arith)
clear-le (suc f) w pos h = elim (Bool-cases (w % 2 == 1)) [
  | inl odd ↦ let c = clear-odd w (ground arith) in ground arith
  | inr even ↦
      let ih = clear-le f (w / 2) (ground arith) (omega (arith, two_pow f)) in
      let c = clear-even w (ground arith) pos in omega arith
]

pub trailing_zeros-set :
    (f w : ℕ) → 0 < w → w < 2 ^ f → (trailing_zeros f w < f) × (bit w (trailing_zeros f w) ≡ true)
unfolding trailing_zeros
trailing_zeros-set zero w pos h = absurd (omega arith)
trailing_zeros-set (suc f) w pos h = elim (Bool-cases (w % 2 == 1)) [
  | inl odd ↦ rw odd (omega arith, ground arith)
  | inr even ↦
      let (low, is_set) = trailing_zeros-set f (w / 2) (ground arith) (omega (arith, two_pow f)) in
      rw even (omega arith, bit-suc w (trailing_zeros f (w / 2)) ∙ is_set)
]

-- The bits that are set, which bound the turns of the loop.
unfoldable ones : ℕ → ℕ → ℕ
ones zero w = 0
ones (suc f) w = w % 2 + ones f (w / 2)

ones-clear : (f w : ℕ) → 0 < w → w < 2 ^ f → ones f w ≡ suc (ones f (clear w))
unfolding ones
ones-clear zero w pos h = absurd (omega arith)
ones-clear (suc f) w pos h = elim (Bool-cases (w % 2 == 1)) [
  | inl odd ↦
      let c = clear-odd w (ground arith) in
      let half : clear w / 2 ≡ w / 2 = omega arith in
      let last : clear w % 2 ≡ 0 = omega arith in rw (half, last) (ground arith)
  | inr even ↦
      let c = clear-even w (ground arith) pos in
      let half : clear w / 2 ≡ clear (w / 2) = omega arith in
      let last : clear w % 2 ≡ 0 = omega arith in
      let ih = ones-clear f (w / 2) (ground arith) (omega (arith, two_pow f)) in
      rw (half, last, ih) (ground arith)
]

ones-le : (f w : ℕ) → ones f w ≤ f
unfolding ones
ones-le zero w = omega arith
ones-le (suc f) w = omega (arith, ones-le f (w / 2))

no_ones : (f w : ℕ) → w < 2 ^ f → ones f w ≡ 0 → w ≡ 0
unfolding ones
no_ones zero w h none_set = omega arith
no_ones (suc f) w h none_set =
    omega (arith, no_ones f (w / 2) (omega (arith, two_pow f)) (omega arith))

pub no_bit : (k : ℕ) → bit 0 k ≡ false
no_bit zero = refl
no_bit (suc k) = bit-suc 0 k ∙ no_bit k

-- A bit of the word that stands at idx in a bitset.
abbrev pub in_word : (n idx w : ℕ) → Bool
in_word n idx w = n / 64 == idx && bit w (n % 64)

number_of : (idx r : ℕ) → idx < 2 ^ 26 → r < 64 → bit_or (u32 (idx * 2 ^ 6)) r ≡ idx * 64 + r
number_of idx r small low = omega (
  arith,
  bit_or_comm (u32 (idx * 2 ^ 6)) (u32 (idx * 2 ^ 6)) r (omega arith),
  ap (λ (t : ℕ). bit_or r t) shifted,
  bit_or_high 6 r idx low,
)
  where
    shifted : u32 (idx * 2 ^ 6) ≡ idx * 2 ^ 6
    shifted = omega arith

-- The bit that was reported, or another one.
in_word-clear :
    (n idx w v tz : ℕ)
    → tz < 64
    → bit w tz ≡ true
    → bit v (n % 64) ≡ (bit w (n % 64) && not (n % 64 == tz))
    → (n == idx * 64 + tz || in_word n idx v) ≡ in_word n idx w
in_word-clear n idx w v tz low is_set cleared = elim (Bool-cases (n % 64 == tz)) [
  | inl same ↦
      let here : tz ≡ n % 64 = ground arith in
      let there = subst (λ t. bit w t ≡ true) here is_set in ground arith
  | inr other ↦ ground arith
]

fewer : {a b f : ℕ} → a ≡ suc b → a ≤ suc f → b ≤ f
fewer h le = omega arith

below : {a b c : ℕ} → a < b → b < c → a < c
below h lt = omega arith

mem-collect_loop :
    (fuel idx w n : ℕ)
    → idx < 2 ^ 26
    → w < 2 ^ 64
    → ones 64 w ≤ fuel
    → mem n (collect_word fuel (u32 (idx * 2 ^ 6)) w) ≡ in_word n idx w
unfolding collect_word
mem-collect_loop zero idx w n small wide enough =
    rw (no_ones 64 w wide (omega arith), no_bit (n % 64)) (ground arith)
mem-collect_loop (suc fuel) idx w n small wide enough = elim (Bool-cases (w == 0)) [
  | inl e ↦ let empty : w ≡ 0 = ground arith in rw (e, empty, no_bit (n % 64)) (ground arith)
  | inr e ↦
      let pos : 0 < w = ground arith in
      let (low, is_set) = trailing_zeros-set 64 w pos wide in
      let c = ones-clear 64 w pos wide in
      let ih =
        mem-collect_loop fuel idx (clear w) n small (below (clear-le 64 w pos wide) wide)
          (fewer c enough) in
      let cleared = bit-clear 64 w (n % 64) pos wide in
      rw (e, number_of idx (trailing_zeros 64 w) small low, ih)
        (in_word-clear n idx w (clear w) (trailing_zeros 64 w) low is_set cleared)
]

pub mem-collect_word :
    (idx w n : ℕ)
    → idx < 2 ^ 26
    → w < 2 ^ 64
    → mem n (collect_word 64 (u32 (idx * 2 ^ 6)) w) ≡ in_word n idx w
mem-collect_word idx w n small wide = mem-collect_loop 64 idx w n small wide (ones-le 64 w)
