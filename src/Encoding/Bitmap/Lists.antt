-- ===== src/Encoding/Bitmap/Lists.antt =====
-- A bitmap as a list of its elements: the laws asked of the package can hold together.
use fxi.Base.{
  ℕ, ◌≤◌, ◌≡◌, refl, arith, Bool, true, false, ◌||◌, Option, none, some, List, [], ◌∷◌, ◌==◌,
  if◌then◌else◌, max, false≢true, Option-cases, inl, inr,
}
use fxi.Encoding.Bitmap.{Bitmap, above}

abbrev pub held : List ℕ → ℕ → Bool
held [] x = false
held (y ∷ ys) x = x == y || held ys x

abbrev pub join_max : ℕ → Option ℕ → Option ℕ
join_max y none = some y
join_max y (some m) = some (max y m)

abbrev pub largest : List ℕ → Option ℕ
largest [] = none
largest (y ∷ ys) = join_max y (largest ys)

abbrev pub push : List ℕ → ℕ → List ℕ
push ys v = if above (largest ys) v then v ∷ ys else ys

pub held-none : (ys : List ℕ) (x : ℕ) → largest ys ≡ none → held ys x ≡ false
held-none [] x e = refl
held-none (y ∷ ys) x e = elim (Option-cases (largest ys)) [
  | inl p ↦ ground arith
  | inr (m, p) ↦ ground arith
]

pub held-le : (ys : List ℕ) (x m : ℕ) → largest ys ≡ some m → held ys x ≡ true → x ≤ m
held-le [] x m e h = absurd (false≢true h)
held-le (y ∷ ys) x m e h = elim (Option-cases (largest ys)) [
  | inl p ↦ ground (arith, held-none ys x p)
  | inr (k, p) ↦ ground (arith, held-le ys x k p)
]

pub held-largest : (ys : List ℕ) (m : ℕ) → largest ys ≡ some m → held ys m ≡ true
held-largest [] m e = ground arith
held-largest (y ∷ ys) m e = elim (Option-cases (largest ys)) [
  | inl p ↦ ground arith
  | inr (k, p) ↦ ground (arith, held-largest ys k p)
]

pub held-push :
    (ys : List ℕ) (v x : ℕ)
    → held (push ys v) x ≡ (if above (largest ys) v then x == v || held ys x else held ys x)
held-push ys v x = elim (Option-cases (largest ys)) [
  | inl p ↦ ground arith
  | inr (k, p) ↦ ground arith
]

pub largest-push :
    (ys : List ℕ) (v : ℕ)
    → largest (push ys v) ≡ (if above (largest ys) v then some v else largest ys)
largest-push ys v = elim (Option-cases (largest ys)) [
  | inl p ↦ ground arith
  | inr (k, p) ↦ ground arith
]

abbrev pub listed : Bitmap
listed = record {
  B = List ℕ;
  new = [];
  contains = held;
  max_of = largest;
  try_push = push;
  contains-new = λ x. refl;
  max_of-new = refl;
  contains-none = held-none;
  contains-le = held-le;
  contains-max = held-largest;
  contains-try_push = held-push;
  max_of-try_push = largest-push;
}
