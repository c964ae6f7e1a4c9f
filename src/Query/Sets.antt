-- ===== src/Query/Sets.antt =====
-- The operations of `roaring` that query execution uses, with their documented laws.
pub mod Lists
use fxi.Base.{ℕ, ◌≡◌, Bool, true, false, ◌||◌, ◌&&◌, not, List, [], ◌∷◌, ◌==◌}

abbrev pub elem : ℕ → List ℕ → Bool
elem x [] = false
elem x (y ∷ ys) = x == y || elem x ys

pub record Sets : Type 1 where
  pub B : Type 0
  pub new : B
  pub contains : B → ℕ → Bool
  pub insert : B → ℕ → B
  -- a & b, a | b and a - b
  pub and_of : B → B → B
  pub or_of : B → B → B
  pub minus : B → B → B
  pub is_empty : B → Bool
  pub len : B → ℕ
  pub iter : B → List ℕ
  pub contains-new : (x : ℕ) → contains new x ≡ false
  pub contains-insert : (b : B) (y x : ℕ) → contains (insert b y) x ≡ (x == y || contains b x)
  pub contains-and_of : (a b : B) (x : ℕ) → contains (and_of a b) x ≡ (contains a x && contains b x)
  pub contains-or_of : (a b : B) (x : ℕ) → contains (or_of a b) x ≡ (contains a x || contains b x)
  pub contains-minus :
      (a b : B) (x : ℕ) → contains (minus a b) x ≡ (contains a x && not (contains b x))
  pub contains-is_empty : (b : B) (x : ℕ) → is_empty b ≡ true → contains b x ≡ false
  pub elem-iter : (b : B) (x : ℕ) → elem x (iter b) ≡ contains b x
