-- ===== src/Base/Numbers.antt =====
-- A map that numbers the entries of a list by their places.
use mathlib.Core.Path.{◌≡◌, sym}
use mathlib.Core.Logic.{inl, inr}
use mathlib.Core.Bool.{true, false}
use mathlib.Core.Option.{none, some}
use mathlib.Core.List.{List, [], ◌∷◌, ◌++◌}
use native.Mathlib.Omega.{arith}
use Prim.Native.Nat.{ℕ}
use fxi.Base.Tests.{Bool-cases}
use fxi.Base.Lists.{length, get_elem?, get_elem?-append, get_elem?-append_last}
use fxi.Base.Keys.{Eq, mem, distinct, find, put, find-put, mem-append, distinct-append}

module _ {ℓ} {K : Type ℓ} ⦃e : Eq K⦄ where
  pub record Numbers (m : List (K × ℕ)) (xs : List K) : Type ℓ where
    pub known : (k : K) (i : ℕ) → find k m ≡ some i → get_elem? xs i ≡ some k
    pub unknown : (k : K) → find k m ≡ none → mem k xs ≡ false
    pub unique : distinct xs ≡ true

  -- Two entries of one number are the same.
  pub known-injective :
      (m : List (K × ℕ)) (xs : List K) (j k : K) (i : ℕ)
      → Numbers m xs
      → find j m ≡ some i
      → find k m ≡ some i
      → j ≡ k
  known-injective m xs j k i n hj hk =
      let one = n.known j i hj in let other = n.known k i hk in ground arith

  -- A new entry comes last.
  pub push-Numbers :
      (m : List (K × ℕ)) (xs : List K) (k : K)
      → Numbers m xs
      → find k m ≡ none
      → Numbers (put k (length xs) m) (xs ++ (k ∷ []))
  push-Numbers m xs k n h =
      let fresh = n.unknown k h in
      record {
        known = λ j i found.
            let put_here = find-put k j (length xs) m in
            elim (Bool-cases (e.beq k j)) [
              | inl same ↦
                  let one : k ≡ j = (e.beq_iff k j).0 same in
                  let at : i ≡ length xs = ground arith in
                  rw (at, sym one) (get_elem?-append_last xs k)
              | inr other ↦
                  let before : find j m ≡ some i = ground arith in
                  get_elem?-append xs (k ∷ []) i (n.known j i before)
            ];
        unknown = λ j gone.
            let put_here = find-put k j (length xs) m in
            let before = n.unknown j in
            rw (mem-append j xs (k ∷ [])) (ground (arith, e.beq_iff k j, e.beq_iff j k));
        unique = rw (distinct-append k xs) (ground (arith, n.unique));
      }
