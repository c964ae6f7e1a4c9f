-- ===== src/Base/Sorting.antt =====
-- sort_unstable and dedup of the standard library, on numbers.
use Prim.Native.Nat.{ℕ}
use mathlib.Core.Path.{◌≡◌, refl, ap, ◌∙◌}
use mathlib.Core.Bool.{◌||◌}
use mathlib.Core.List.{List, [], ◌∷◌}
use native.Mathlib.Omega.{arith}
use fxi.Base.Tests.{leb, ◌==◌, ==_iff, if◌then◌else◌}
use fxi.Base.Keys.{nat_eq, mem}

abbrev pub insert_sorted : ℕ → List ℕ → List ℕ
insert_sorted x [] = x ∷ []
insert_sorted x (y ∷ ys) = if leb x y then x ∷ y ∷ ys else y ∷ insert_sorted x ys

unfoldable pub sort : List ℕ → List ℕ
sort [] = []
sort (x ∷ xs) = insert_sorted x (sort xs)

abbrev pub dedup_after : ℕ → List ℕ → List ℕ
dedup_after x [] = []
dedup_after x (y ∷ ys) = let rest = dedup_after y ys in if x == y then rest else y ∷ rest

unfoldable pub dedup : List ℕ → List ℕ
dedup [] = []
dedup (x ∷ xs) = x ∷ dedup_after x xs

mem-insert_sorted : (n x : ℕ) (xs : List ℕ) → mem n (insert_sorted x xs) ≡ (n == x || mem n xs)
mem-insert_sorted n x [] = refl
mem-insert_sorted n x (y ∷ ys) = ground (arith, mem-insert_sorted n x ys)

pub mem-sort : (n : ℕ) (xs : List ℕ) → mem n (sort xs) ≡ mem n xs
unfolding sort
mem-sort n [] = refl
mem-sort n (x ∷ xs) = mem-insert_sorted n x (sort xs) ∙ ap (λ t. n == x || t) (mem-sort n xs)

mem-dedup_after :
    (n x : ℕ) (xs : List ℕ) → (n == x || mem n (dedup_after x xs)) ≡ (n == x || mem n xs)
mem-dedup_after n x [] = refl
mem-dedup_after n x (y ∷ ys) =
    let ih = mem-dedup_after n y ys in ground (arith, ==_iff x y, ==_iff n x, ==_iff n y)

pub mem-dedup : (n : ℕ) (xs : List ℕ) → mem n (dedup xs) ≡ mem n xs
unfolding dedup
mem-dedup n [] = refl
mem-dedup n (x ∷ xs) = mem-dedup_after n x xs
