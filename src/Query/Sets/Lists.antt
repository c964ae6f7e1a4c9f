-- ===== src/Query/Sets/Lists.antt =====
-- Sets of documents as lists, which have the laws of the sets that query execution uses.
use fxi.Base.{
  ℕ, ◌≡◌, refl, ap, ◌==◌, arith, Bool, true, false, ◌||◌, ◌&&◌, not, List, [], ◌∷◌, ◌++◌, length,
  if◌then◌else◌, Bool-cases, inl, inr, ==_iff,
}
use fxi.Encoding.Bitmap.Lists.{held}
use fxi.Query.Sets.{Sets, elem}

unfoldable pub retain : (ℕ → Bool) → List ℕ → List ℕ
retain test [] = []
retain test (x ∷ xs) = let rest = retain test xs in if test x then x ∷ rest else rest

abbrev pub null : List ℕ → Bool
null [] = true
null (x ∷ xs) = false

pub elem-retain :
    (test : ℕ → Bool) (xs : List ℕ) (x : ℕ) → elem x (retain test xs) ≡ (elem x xs && test x)
unfolding retain
elem-retain test [] x = refl
elem-retain test (y ∷ ys) x =
    let ih = elem-retain test ys x in
    let same = ==_iff x y in
    elim (Bool-cases (test y)) [ inl e ↦ ground arith | inr e ↦ ground arith ]

pub elem-append : (xs ys : List ℕ) (x : ℕ) → elem x (xs ++ ys) ≡ (elem x xs || elem x ys)
elem-append [] ys x = ground arith
elem-append (y ∷ xs) ys x = let ih = elem-append xs ys x in ground arith

pub elem-null : (xs : List ℕ) (x : ℕ) → null xs ≡ true → elem x xs ≡ false
elem-null [] x h = refl
elem-null (y ∷ ys) x h = ground arith

abbrev pub lists : Sets
lists = record {
  B = List ℕ;
  new = [];
  contains = λ b. λ x. elem x b;
  insert = λ b. λ x. x ∷ b;
  and_of = λ a. λ b. retain (λ (x : ℕ). elem x b) a;
  or_of = λ a. λ b. a ++ b;
  minus = λ a. λ b. retain (λ (x : ℕ). not (elem x b)) a;
  is_empty = null;
  len = length;
  iter = λ b. b;
  contains-new = λ x. refl;
  contains-insert = λ b. λ y. λ x. refl;
  contains-and_of = λ a. λ b. λ x. elem-retain (λ (y : ℕ). elem y b) a x;
  contains-or_of = λ a. λ b. λ x. elem-append a b x;
  contains-minus = λ a. λ b. λ x. elem-retain (λ (y : ℕ). not (elem y b)) a x;
  contains-is_empty = elem-null;
  elem-iter = λ b. λ x. refl;
}

-- The decoders' bitmaps as lists hold the same documents.
pub held-elem : (b : List ℕ) (d : ℕ) → held b d ≡ elem d b
held-elem [] d = refl
held-elem (x ∷ b) d = ap (λ t. d == x || t) (held-elem b d)
