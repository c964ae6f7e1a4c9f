-- ===== src/Base/Keys.antt =====
-- Lists and association lists over keys that can be compared: the hash sets and hash maps.
use mathlib.Core.Path.{◌≡◌, refl}
use mathlib.Core.Logic.{◌↔◌}
use mathlib.Core.Bool.{Bool, true, false, not, ◌&&◌, ◌||◌}
use mathlib.Core.Option.{Option, none, some}
use mathlib.Core.List.{List, [], ◌∷◌, ◌++◌}
use native.Mathlib.Omega.{arith}
use fxi.Base.Tests.{if◌then◌else◌, nat_beq, nat_beq_iff}
use Prim.Native.Nat.{ℕ}

pub record Eq {ℓ} (K : Type ℓ) : Type ℓ where
  pub beq : K → K → Bool
  pub beq_iff : (a b : K) → (beq a b ≡ true) ↔ (a ≡ b)

instance abbrev pub nat_eq : Eq ℕ
nat_eq = record { beq = nat_beq; beq_iff = nat_beq_iff }

module _ {ℓ} {K : Type ℓ} ⦃e : Eq K⦄ where
  pub beq_refl : (a : K) → e.beq a a ≡ true
  beq_refl a = (e.beq_iff a a).1 refl

  abbrev pub mem : K → List K → Bool
  mem k [] = false
  mem k (x ∷ xs) = e.beq k x || mem k xs

  -- retain(|x| x != k)
  abbrev pub without : K → List K → List K
  without k [] = []
  without k (x ∷ xs) = let rest = without k xs in if e.beq k x then rest else x ∷ rest

  -- No key stands twice.
  abbrev pub distinct : List K → Bool
  distinct [] = true
  distinct (x ∷ xs) = not (mem x xs) && distinct xs

  pub mem-append : (k : K) (xs ys : List K) → mem k (xs ++ ys) ≡ (mem k xs || mem k ys)
  mem-append k [] ys = refl
  mem-append k (x ∷ xs) ys = let ih = mem-append k xs ys in ground arith

  pub mem-without : (k j : K) (xs : List K) → mem j (without k xs) ≡ (mem j xs && not (e.beq k j))
  mem-without k j [] = refl
  mem-without k j (x ∷ xs) =
      let ih = mem-without k j xs in ground (arith, e.beq_iff k x, e.beq_iff j x, e.beq_iff k j)

  pub distinct-append :
      (k : K) (xs : List K) → distinct (xs ++ (k ∷ [])) ≡ (distinct xs && not (mem k xs))
  distinct-append k [] = refl
  distinct-append k (x ∷ xs) =
      let ih = distinct-append k xs in
      ground (arith, mem-append x xs (k ∷ []), e.beq_iff x k, e.beq_iff k x)

-- A map as a list of its entries.
module _ {ℓ κ} {K : Type ℓ} {V : Type κ} ⦃e : Eq K⦄ where
  abbrev pub find : K → List (K × V) → Option V
  find k [] = none
  find k ((j, v) ∷ m) = if e.beq k j then some v else find k m

  -- An entry is replaced where it stands; a new one comes last.
  abbrev pub put : K → V → List (K × V) → List (K × V)
  put k v [] = (k, v) ∷ []
  put k v ((j, w) ∷ m) = if e.beq k j then (k, v) ∷ m else (j, w) ∷ put k v m

  abbrev pub erase : K → List (K × V) → List (K × V)
  erase k [] = []
  erase k ((j, w) ∷ m) = let rest = erase k m in if e.beq k j then rest else (j, w) ∷ rest

  abbrev pub keys : List (K × V) → List K
  keys [] = []
  keys ((j, v) ∷ m) = j ∷ keys m

  pub find-put :
      (k j : K) (v : V) (m : List (K × V))
      → find j (put k v m) ≡ (if e.beq k j then some v else find j m)
  find-put k j v [] = ground (arith, e.beq_iff k j, e.beq_iff j k)
  find-put k j v ((i, w) ∷ m) =
      ground (arith, e.beq_iff k j, e.beq_iff j k, e.beq_iff k i, e.beq_iff j i, find-put k j v m)

  pub find-erase :
      (k j : K) (m : List (K × V)) → find j (erase k m) ≡ (if e.beq k j then none else find j m)
  find-erase k j [] = ground arith
  find-erase k j ((i, w) ∷ m) =
      ground (arith, e.beq_iff k j, e.beq_iff k i, e.beq_iff j i, find-erase k j m)

  pub mem-keys-put :
      (k j : K) (v : V) (m : List (K × V))
      → mem j (keys (put k v m)) ≡ (e.beq j k || mem j (keys m))
  mem-keys-put k j v [] = refl
  mem-keys-put k j v ((i, w) ∷ m) =
      ground (arith, e.beq_iff k i, e.beq_iff j i, e.beq_iff j k, mem-keys-put k j v m)

  pub mem-keys-erase :
      (k j : K) (m : List (K × V)) → mem j (keys (erase k m)) ≡ (mem j (keys m) && not (e.beq k j))
  mem-keys-erase k j [] = refl
  mem-keys-erase k j ((i, w) ∷ m) =
      ground (arith, e.beq_iff k i, e.beq_iff j i, e.beq_iff k j, mem-keys-erase k j m)

  pub distinct-keys-put :
      (k : K) (v : V) (m : List (K × V))
      → distinct (keys m) ≡ true
      → distinct (keys (put k v m)) ≡ true
  distinct-keys-put k v [] h = refl
  distinct-keys-put k v ((i, w) ∷ m) h =
      ground (arith, e.beq_iff k i, e.beq_iff i k, mem-keys-put k i v m, distinct-keys-put k v m)

  pub distinct-keys-erase :
      (k : K) (m : List (K × V)) → distinct (keys m) ≡ true → distinct (keys (erase k m)) ≡ true
  distinct-keys-erase k [] h = refl
  distinct-keys-erase k ((i, w) ∷ m) h =
      ground (arith, e.beq_iff k i, mem-keys-erase k i m, distinct-keys-erase k m)

  pub find-absent : (k : K) (m : List (K × V)) → mem k (keys m) ≡ false → find k m ≡ none
  find-absent k [] h = refl
  find-absent k ((i, w) ∷ m) h = ground (arith, find-absent k m)
