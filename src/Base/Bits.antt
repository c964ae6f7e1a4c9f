-- ===== src/Base/Bits.antt =====
-- `&` and `|` on words at variables: their recursion on the lowest digit, and what follows for the
-- masks and shifts that the program uses.
use Prim.Native.Nat.{
  ℕ, zero, suc, ◌+◌, ◌-◌, ◌*◌, ◌/◌, ◌%◌, ◌^◌, ◌≤◌, ◌<◌, min, max, bit_and, bit_or,
}
use Prim.Native.Nat.{digits, bitwise, bit_and-bitwise, bit_or-bitwise}
use mathlib.Core.Path.{◌≡◌, refl, ap}
use native.Mathlib.Nat.{pow-suc, div-div-eq-div-mul, mod-eq-sub-div-mul, div-mul-le_self}
use native.Mathlib.Omega.{arith}

-- `op` is a native operation that combines digits by f, and z is its value once the first number has
-- run out.
module _ (op f : ℕ → ℕ → ℕ) (z : ℕ → ℕ) (defined : (x y : ℕ) → op x y ≡ bitwise z f x y) where
  -- Any count of digits that covers the first number gives the same result.
  count_free : (k l x y : ℕ) → x ≤ k → x ≤ l → digits z f k x y ≡ digits z f l x y
  count_free zero zero zero y p q = refl
  count_free zero (suc l) zero y p q = refl
  count_free (suc k) zero zero y p q = refl
  count_free (suc k) (suc l) zero y p q = refl
  count_free zero l (suc x) y p q = absurd (omega arith)
  count_free (suc k) zero (suc x) y p q = absurd (omega arith)
  count_free (suc k) (suc l) (suc x) y p q =
      let tail = count_free k l (suc x / 2) (y / 2) (omega arith) (omega arith) in omega arith

  -- Where the first number has run out, z must agree with one more digit.
  module _ (ends : (y : ℕ) → z y ≡ z (y / 2) * 2 + f 0 (y % 2)) where
    lowest_digit : (x y : ℕ) → op x y ≡ op (x / 2) (y / 2) * 2 + f (x % 2) (y % 2)
    lowest_digit zero y = omega (arith, defined 0 y, defined 0 (y / 2), ends y)
    lowest_digit (suc x) y =
        let h = suc x / 2 in
        let same = count_free x h h (y / 2) (omega arith) (omega arith) in
        omega (arith, defined (suc x) y, defined h (y / 2))

    -- The same on the right: g is the value of `op` against 0.
    module _ (g : ℕ → ℕ) (start : z 0 ≡ g 0)
        (more : (x : ℕ) → g x ≡ g (x / 2) * 2 + f (x % 2) 0) where
      against_zero : (k x : ℕ) → x < k → op x 0 ≡ g x
      against_zero zero x h = absurd (omega arith)
      against_zero (suc k) zero h = omega (arith, defined 0 0)
      against_zero (suc k) (suc x) h =
          let half = against_zero k (suc x / 2) (omega arith) in
          omega (arith, lowest_digit (suc x) 0, more (suc x))

pub zero-bit_or : (b : ℕ) → bit_or 0 b ≡ b
zero-bit_or b = bit_or-bitwise 0 b

pub bit_and_step : (a b : ℕ) → bit_and a b ≡ bit_and (a / 2) (b / 2) * 2 + min (a % 2) (b % 2)
bit_and_step = lowest_digit bit_and min (λ _. 0) bit_and-bitwise (λ y. omega arith)

pub bit_or_step : (a b : ℕ) → bit_or a b ≡ bit_or (a / 2) (b / 2) * 2 + max (a % 2) (b % 2)
bit_or_step = lowest_digit bit_or max (λ y. y) bit_or-bitwise (λ y. omega arith)

pub bit_and-zero : (a : ℕ) → bit_and a 0 ≡ 0
bit_and-zero a =
    against_zero bit_and min (λ _. 0) bit_and-bitwise (λ y. omega arith) (λ _. 0) refl
      (λ x. omega arith) (suc a) a (omega arith)

pub bit_or-zero : (a : ℕ) → bit_or a 0 ≡ a
bit_or-zero a =
    against_zero bit_or max (λ y. y) bit_or-bitwise (λ y. omega arith) (λ x. x) refl
      (λ x. omega arith) (suc a) a (omega arith)

pub bit_or_comm : (bound a b : ℕ) → a ≤ bound → bit_or a b ≡ bit_or b a
bit_or_comm zero zero b h = omega (arith, zero-bit_or b, bit_or-zero b)
bit_or_comm zero (suc a) b h = absurd (omega arith)
bit_or_comm (suc bound) zero b h = omega (arith, zero-bit_or b, bit_or-zero b)
bit_or_comm (suc bound) (suc a) b h = omega (
  arith,
  bit_or_step (suc a) b,
  bit_or_step b (suc a),
  bit_or_comm bound (suc a / 2) (b / 2) (omega arith),
)

-- 2 ^ (k + 1), and a multiple of it, in the form that `omega` reads.
pub two_pow : (k : ℕ) → 2 ^ suc k ≡ 2 ^ k * 2
two_pow k = pow-suc 2 k

pub two_pow_scaled : (x k : ℕ) → x * 2 ^ suc k ≡ x * 2 ^ k * 2
two_pow_scaled x k = omega (arith, ap (λ (t : ℕ). x * t) (two_pow k))

pub two_pow_pos : (k : ℕ) → 0 < 2 ^ k
two_pow_pos zero = omega arith
two_pow_pos (suc k) = omega (arith, two_pow k, two_pow_pos k)

half_scaled : (x k : ℕ) → x * 2 ^ suc k / 2 ≡ x * 2 ^ k
half_scaled x k = omega (arith, two_pow_scaled x k)

-- A field below bit s joined with one from bit s on.
pub bit_or_high : (s r x : ℕ) → r < 2 ^ s → bit_or r (x * 2 ^ s) ≡ r + x * 2 ^ s
bit_or_high zero zero x h = omega (arith, zero-bit_or (x * 1))
bit_or_high zero (suc r) x h = absurd (omega arith)
bit_or_high (suc s) r x h = omega (
  arith,
  two_pow s,
  two_pow_scaled x s,
  bit_or_step r (x * 2 ^ suc s),
  ap (λ (t : ℕ). bit_or (r / 2) t) (half_scaled x s),
  bit_or_high s (r / 2) x (omega (arith, two_pow s)),
)

-- Two words of w bits join to a word of w bits.
pub bit_or-lt : (w a b : ℕ) → a < 2 ^ w → b < 2 ^ w → bit_or a b < 2 ^ w
bit_or-lt zero zero b p q = omega (arith, zero-bit_or b)
bit_or-lt zero (suc a) b p q = absurd (omega arith)
bit_or-lt (suc w) a b p q = omega (
  arith,
  two_pow w,
  bit_or_step a b,
  bit_or-lt w (a / 2) (b / 2) (omega (arith, two_pow w)) (omega (arith, two_pow w)),
)

pub div_two_pow : (a k : ℕ) → a / 2 ^ suc k ≡ a / 2 / 2 ^ k
div_two_pow a k = omega (arith, div-div-eq-div-mul a 2 (2 ^ k), ap (λ (t : ℕ). a / t) two_mul)
  where
    two_mul : 2 ^ suc k ≡ 2 * 2 ^ k
    two_mul = omega (arith, two_pow k)

mod_two_pow : (a k : ℕ) → a % 2 ^ suc k ≡ a / 2 % 2 ^ k * 2 + a % 2
mod_two_pow a k = omega (
  arith,
  mod-eq-sub-div-mul a (2 ^ suc k),
  mod-eq-sub-div-mul (a / 2) (2 ^ k),
  div-mul-le_self (a / 2) (2 ^ k),
  two_pow_scaled (a / 2 / 2 ^ k) k,
  ap (λ (t : ℕ). t * 2 ^ suc k) (div_two_pow a k),
)

-- A mask of k ones keeps the k lowest digits.
pub bit_and_ones : (k a : ℕ) → bit_and a (2 ^ k - 1) ≡ a % 2 ^ k
bit_and_ones zero a = omega (arith, bit_and-zero a)
bit_and_ones (suc k) a = omega (
  arith,
  bit_and_step a (2 ^ suc k - 1),
  ap (λ (t : ℕ). bit_and (a / 2) t) half_ones,
  bit_and_ones k (a / 2),
  two_pow k,
  two_pow_pos k,
  mod_two_pow a k,
)
  where
    half_ones : (2 ^ suc k - 1) / 2 ≡ 2 ^ k - 1
    half_ones = omega (arith, two_pow k, two_pow_pos k)

-- A mask of the single digit k.
pub bit_and_single : (k a : ℕ) → bit_and a (2 ^ k) ≡ a / 2 ^ k % 2 * 2 ^ k
bit_and_single zero a = omega (arith, bit_and_step a 1, bit_and-zero (a / 2))
bit_and_single (suc k) a = omega (
  arith,
  two_pow k,
  bit_and_step a (2 ^ suc k),
  ap (λ (t : ℕ). bit_and (a / 2) t) half,
  bit_and_single k (a / 2),
  ap (λ (t : ℕ). t % 2 * 2 ^ suc k) (div_two_pow a k),
  two_pow_scaled (a / 2 / 2 ^ k % 2) k,
)
  where
    half : 2 ^ suc k / 2 ≡ 2 ^ k
    half = omega (arith, two_pow k)

-- Digit k of a word that `|` has made.
pub digit-bit_or : (k a b : ℕ) → bit_or a b / 2 ^ k % 2 ≡ max (a / 2 ^ k % 2) (b / 2 ^ k % 2)
digit-bit_or zero a b = omega (arith, bit_or_step a b)
digit-bit_or (suc k) a b = omega (
  arith,
  digit-bit_or k (a / 2) (b / 2),
  ap (λ (t : ℕ). t / 2 ^ k % 2) lower,
  div_two_pow (bit_or a b) k,
  div_two_pow a k,
  div_two_pow b k,
)
  where
    lower : bit_or a b / 2 ≡ bit_or (a / 2) (b / 2)
    lower = omega (arith, bit_or_step a b)

-- Setting the highest digit of a word of k + 1 digits.
pub bit_or_top : (k a : ℕ) → a < 2 ^ suc k → bit_or a (2 ^ k) ≡ a % 2 ^ k + 2 ^ k
bit_or_top zero a h = omega (arith, bit_or_step a 1, bit_or-zero (a / 2))
bit_or_top (suc k) a h = omega (
  arith,
  two_pow k,
  two_pow (suc k),
  bit_or_step a (2 ^ suc k),
  ap (λ (t : ℕ). bit_or (a / 2) t) half,
  bit_or_top k (a / 2) (omega (arith, two_pow (suc k))),
  mod_two_pow a k,
)
  where
    half : 2 ^ suc k / 2 ≡ 2 ^ k
    half = omega (arith, two_pow k)
