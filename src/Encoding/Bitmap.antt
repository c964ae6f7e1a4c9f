-- ===== src/Encoding/Bitmap.antt =====
-- The part of the `roaring` package that the program uses: a set of u32 with its documented laws.
pub mod Lists
use fxi.Base.{
  ℕ, ◌≤◌, ◌≡◌, Bool, true, false, ◌||◌, ◌&&◌, not, Option, none, some, ltb, ◌==◌, if◌then◌else◌,
}

-- Whether a value lies above the largest element, if there is one.
abbrev pub above : Option ℕ → ℕ → Bool
above none v = true
above (some m) v = ltb m v

-- `try_push` inserts a value only if it is above the largest element.
pub record Bitmap : Type 1 where
  pub B : Type 0
  pub new : B
  pub contains : B → ℕ → Bool
  pub max_of : B → Option ℕ
  pub try_push : B → ℕ → B
  pub contains-new : (x : ℕ) → contains new x ≡ false
  pub max_of-new : max_of new ≡ none
  pub contains-none : (b : B) (x : ℕ) → max_of b ≡ none → contains b x ≡ false
  pub contains-le : (b : B) (x m : ℕ) → max_of b ≡ some m → contains b x ≡ true → x ≤ m
  pub contains-max : (b : B) (m : ℕ) → max_of b ≡ some m → contains b m ≡ true
  pub contains-try_push :
      (b : B) (v x : ℕ)
      → contains (try_push b v) x
        ≡ (if above (max_of b) v then x == v || contains b x else contains b x)
  pub max_of-try_push :
      (b : B) (v : ℕ) → max_of (try_push b v) ≡ (if above (max_of b) v then some v else max_of b)
