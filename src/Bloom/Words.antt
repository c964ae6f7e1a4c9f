-- ===== src/Bloom/Words.antt =====
-- Single bits of the words of src/utils/bloom.rs.
use fxi.Base.{
  ℕ, zero, suc, ◌*◌, ◌/◌, ◌%◌, ◌^◌, ◌<◌, ◌≡◌, refl, arith, bit_or, true, false, List, [], ◌∷◌,
  length, get_or, set, ◌==◌, if◌then◌else◌, get_or-set_self, ==_iff, ◌↔◌, ◌⊎◌, inl, inr, ap,
}
use native.Mathlib.Nat.{div_self}
use fxi.Base.Bits.{bit_and_single, digit-bit_or, two_pow_pos}
use fxi.Bloom.{set_bit, test_bit, merge_words}

-- The digit that stands at a bit's index.
abbrev pub digit : List ℕ → ℕ → ℕ
digit bits index = get_or bits (index / 64) 0 / 2 ^ (index % 64) % 2

scaled_digit : (D p : ℕ) → D < 2 → 0 < p → (if D * p == 0 then false else true) ≡ (D == 1)
scaled_digit zero p h q = ground arith
scaled_digit (suc zero) p h q = ground arith
scaled_digit (suc (suc D)) p h q = absurd (omega arith)

pub test_bit-digit : (bits : List ℕ) (index : ℕ) → test_bit bits index ≡ (digit bits index == 1)
unfolding test_bit
test_bit-digit bits index =
    rw (bit_and_single (index % 64) (get_or bits (index / 64) 0))
      (scaled_digit (digit bits index) (2 ^ (index % 64)) (omega arith) (two_pow_pos (index % 64)))

digit_set : (k a : ℕ) → bit_or a (2 ^ k) / 2 ^ k % 2 ≡ 1
digit_set k a = omega (arith, digit-bit_or k a (2 ^ k), div_self (two_pow_pos k))

digit_kept : (k a b : ℕ) → a / 2 ^ k % 2 ≡ 1 → bit_or a b / 2 ^ k % 2 ≡ 1
digit_kept k a b h = omega (arith, digit-bit_or k a b)

digit_kept_right : (k a b : ℕ) → b / 2 ^ k % 2 ≡ 1 → bit_or a b / 2 ^ k % 2 ≡ 1
digit_kept_right k a b h = omega (arith, digit-bit_or k a b)

-- A read after a write: the word that was written, or what was there.
get_or-set_cases :
    (xs : List ℕ) (i j v : ℕ)
    → ((i ≡ j) × (get_or (set xs i v) j 0 ≡ v)) ⊎ (get_or (set xs i v) j 0 ≡ get_or xs j 0)
get_or-set_cases [] i j v = inr refl
get_or-set_cases (x ∷ xs) zero zero v = inl (refl, refl)
get_or-set_cases (x ∷ xs) zero (suc j) v = inr refl
get_or-set_cases (x ∷ xs) (suc i) zero v = inr refl
get_or-set_cases (x ∷ xs) (suc i) (suc j) v = elim (get_or-set_cases xs i j v) [
  | inl (e, h) ↦ inl (ap suc e, h)
  | inr h ↦ inr h
]

pub test_bit_iff :
    (bits : List ℕ) (index : ℕ) → (test_bit bits index ≡ true) ↔ (digit bits index ≡ 1)
test_bit_iff bits index =
    let same = ==_iff (digit bits index) 1 in rw (test_bit-digit bits index) same

pub test_bit-set_bit_self :
    (bits : List ℕ) (index : ℕ)
    → index / 64 < length bits
    → test_bit (set_bit bits index) index ≡ true
unfolding set_bit
test_bit-set_bit_self bits index h = (test_bit_iff (set_bit bits index) index).1 (
    rw
      (get_or-set_self bits (index / 64) (bit_or (get_or bits (index / 64) 0) (2 ^ (index % 64))) 0
        h)
      (digit_set (index % 64) (get_or bits (index / 64) 0)))

pub test_bit-set_bit_keeps :
    (bits : List ℕ) (index other : ℕ)
    → test_bit bits other ≡ true
    → test_bit (set_bit bits index) other ≡ true
unfolding set_bit
test_bit-set_bit_keeps bits index other h =
    let was = (test_bit_iff bits other).0 h in
    let w = bit_or (get_or bits (index / 64) 0) (2 ^ (index % 64)) in
    (test_bit_iff (set_bit bits index) other).1
      (elim (get_or-set_cases bits (index / 64) (other / 64) w) [
        | inl (same, e) ↦
            rw e (
              digit_kept (other % 64) (get_or bits (index / 64) 0) (2 ^ (index % 64)) (rw same was))
        | inr e ↦ rw e was
      ])

get_or-merge_words :
    (as_words bs : List ℕ) (i : ℕ)
    → length as_words ≡ length bs
    → get_or (merge_words as_words bs) i 0 ≡ bit_or (get_or as_words i 0) (get_or bs i 0)
unfolding merge_words
get_or-merge_words [] [] i h = refl
get_or-merge_words [] (b ∷ bs) i h = absurd (omega arith)
get_or-merge_words (a ∷ xs) [] i h = absurd (omega arith)
get_or-merge_words (a ∷ xs) (b ∷ bs) zero h = refl
get_or-merge_words (a ∷ xs) (b ∷ bs) (suc i) h = get_or-merge_words xs bs i (omega arith)

pub test_bit-merge_words :
    (xs ys : List ℕ) (index : ℕ)
    → length xs ≡ length ys
    → (test_bit xs index ≡ true) ⊎ (test_bit ys index ≡ true)
    → test_bit (merge_words xs ys) index ≡ true
test_bit-merge_words xs ys index h e =
    let a = get_or xs (index / 64) 0 in
    let b = get_or ys (index / 64) 0 in
    (test_bit_iff (merge_words xs ys) index).1 (
      rw (get_or-merge_words xs ys (index / 64) h) (elim e [
        | inl t ↦ digit_kept (index % 64) a b ((test_bit_iff xs index).0 t)
        | inr t ↦ digit_kept_right (index % 64) a b ((test_bit_iff ys index).0 t)
      ]))
