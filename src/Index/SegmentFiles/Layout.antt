-- ===== src/Index/SegmentFiles/Layout.antt =====
-- A segment's postings file holds the encoded postings one behind the other, each at the place of its
-- entry.
use fxi.Base.{
  ℕ, ◌+◌, ◌-◌, ◌^◌, ◌<◌, ◌≡◌, refl, subst, ap, ◌∙◌, arith, true, ◌||◌, List, [], ◌∷◌, ◌++◌, length,
  length-append, append_assoc, drop-append, All, leb, ◌==◌, Bool-cases, inl, inr,
}
use fxi.Base.Keys.{Eq, nat_eq, mem, find}
use fxi.Base.Sorting.{insert_sorted, sort, dedup_after, dedup, mem-sort, mem-dedup}
use fxi.Encoding.Delta.{delta_decode}
use fxi.Encoding.Delta.Values.{IsAscending}
use fxi.Encoding.Delta.RoundTrip.{delta_decode-delta_encode}
use fxi.Encoding.Delta.Sets.{elem}
use fxi.Utils.Tokenizer.{slice_of, take}
use fxi.Index.Delta.{or_empty}
use fxi.Index.Postings.{Entry, bytes_of}
use fxi.Index.Postings.Lookups.{listed_in, posted}
use fxi.Index.SegmentFiles.{is_sorted, encode_postings}

abbrev pub AreIds : List ℕ → Type 0
AreIds ids = All (λ id. id < 2 ^ 32) ids

elem-mem : (d : ℕ) (ids : List ℕ) → elem d ids ≡ mem d ids
elem-mem d [] = refl
elem-mem d (x ∷ xs) = ap (λ t. d == x || t) (elem-mem d xs)

is_sorted-IsAscending_behind :
    (prev : ℕ) (ids : List ℕ) → is_sorted (prev ∷ ids) ≡ true → AreIds ids → IsAscending prev ids
is_sorted-IsAscending_behind prev [] sorted are = tt
is_sorted-IsAscending_behind prev (x ∷ xs) sorted (is, are) =
    (ground arith, is, is_sorted-IsAscending_behind x xs (ground arith) are)

is_sorted-IsAscending : (ids : List ℕ) → is_sorted ids ≡ true → AreIds ids → IsAscending 0 ids
is_sorted-IsAscending [] sorted are = tt
is_sorted-IsAscending (x ∷ xs) sorted are =
    is_sorted-IsAscending_behind 0 (x ∷ xs) (ground arith) are

-- Sorting keeps the width of the ids.
insert_sorted-AreIds :
    (x : ℕ) (ids : List ℕ) → x < 2 ^ 32 → AreIds ids → AreIds (insert_sorted x ids)
insert_sorted-AreIds x [] is are = (is, tt)
insert_sorted-AreIds x (y ∷ ys) is (first, are) = elim (Bool-cases (leb x y)) [
  | inl e ↦ rw e (is, (first, are))
  | inr e ↦ rw e (first, insert_sorted-AreIds x ys is are)
]

sort-AreIds : (ids : List ℕ) → AreIds ids → AreIds (sort ids)
unfolding sort
sort-AreIds [] are = tt
sort-AreIds (x ∷ xs) (is, are) = insert_sorted-AreIds x (sort xs) is (sort-AreIds xs are)

is_sorted-insert_sorted :
    (x : ℕ) (ids : List ℕ) → is_sorted ids ≡ true → is_sorted (insert_sorted x ids) ≡ true
is_sorted-insert_sorted x [] h = refl
is_sorted-insert_sorted x (y ∷ []) h = ground arith
is_sorted-insert_sorted x (y ∷ z ∷ zs) h =
    let ih = is_sorted-insert_sorted x (z ∷ zs) (ground arith) in ground arith

is_sorted-sort : (ids : List ℕ) → is_sorted (sort ids) ≡ true
unfolding sort
is_sorted-sort [] = refl
is_sorted-sort (x ∷ xs) = is_sorted-insert_sorted x (sort xs) (is_sorted-sort xs)

pub dedup_after-AreIds : (x : ℕ) (ids : List ℕ) → AreIds ids → AreIds (dedup_after x ids)
dedup_after-AreIds x [] are = tt
dedup_after-AreIds x (y ∷ ys) (is, are) = elim (Bool-cases (x == y)) [
  | inl e ↦ rw e (dedup_after-AreIds y ys are)
  | inr e ↦ rw e (is, dedup_after-AreIds y ys are)
]

-- What stands behind x is not below it, and stays so without repetitions.
pub is_sorted-dedup_after :
    (x : ℕ) (ids : List ℕ) → is_sorted (x ∷ ids) ≡ true → is_sorted (x ∷ dedup_after x ids) ≡ true
is_sorted-dedup_after x [] h = refl
is_sorted-dedup_after x (y ∷ ys) h = elim (Bool-cases (x == y)) [
  | inl e ↦
      let same : y ≡ x = ground arith in
      rw e (
        subst (λ z. is_sorted (z ∷ dedup_after y ys) ≡ true) same
          (is_sorted-dedup_after y ys (ground arith)))
  | inr e ↦ let ih = is_sorted-dedup_after y ys (ground arith) in rw e (ground arith)
]

dedup-IsAscending : (ids : List ℕ) → is_sorted ids ≡ true → AreIds ids → IsAscending 0 (dedup ids)
unfolding dedup
dedup-IsAscending [] h are = tt
dedup-IsAscending (x ∷ xs) h (is, are) =
    is_sorted-IsAscending (x ∷ dedup_after x xs) (is_sorted-dedup_after x xs h)
      (is, dedup_after-AreIds x xs are)

-- The encoded ids hold the ids.
listed_in-encode_postings :
    (d : ℕ) (ids : List ℕ)
    → AreIds ids
    → listed_in d (delta_decode (encode_postings ids).0) ≡ mem d ids
unfolding encode_postings
listed_in-encode_postings d ids are = elim (Bool-cases (is_sorted ids)) [
  | inl e ↦ rw (e, delta_decode-delta_encode ids (is_sorted-IsAscending ids e are)) (elem-mem d ids)
  | inr e ↦
      rw
        (
          e,
          delta_decode-delta_encode (dedup (sort ids))
              (dedup-IsAscending (sort ids) (is_sorted-sort ids) (sort-AreIds ids are)),
        )
        (elem-mem d (dedup (sort ids)) ∙ mem-dedup d (sort ids) ∙ mem-sort d ids)
]

take-append : (xs ys : List ℕ) → take (length xs) (xs ++ ys) ≡ xs
take-append [] ys = refl
take-append (x ∷ xs) ys = ap (λ zs. x ∷ zs) (take-append xs ys)

pub slice_between :
    (front xs more : List ℕ)
    → slice_of (front ++ (xs ++ more)) (length front) (length front + length xs) ≡ xs
slice_between front xs more =
    let len : length front + length xs - length front ≡ length xs = omega arith in
    rw (len, drop-append front (xs ++ more)) (take-append xs more)

module _ {K : Type 0} where
  unfoldable pub layout : ℕ → List (K × List ℕ) → List (K × Entry)
  layout offset [] = []
  layout offset ((k, ids) ∷ postings) =
      let len = length (encode_postings ids).0 in
      (k, record { offset = offset; entry_length = len }) ∷ layout (offset + len) postings

  unfoldable pub contents : List (K × List ℕ) → List ℕ
  contents [] = []
  contents ((k, ids) ∷ postings) = (encode_postings ids).0 ++ contents postings

  abbrev pub AllIds : List (K × List ℕ) → Type 0
  AllIds postings = All (λ (p : K × List ℕ). AreIds p.1) postings

module _ {K : Type 0} ⦃e : Eq K⦄ where
  pub listed_in-layout :
      (d : ℕ) (key : K) (front : List ℕ) (postings : List (K × List ℕ))
      → AllIds postings
      → listed_in d (
          posted
            (bytes_of (front ++ contents postings) (find key (layout (length front) postings))))
        ≡ mem d (or_empty (find key postings))
  unfolding layout contents
  listed_in-layout d key front [] are = refl
  listed_in-layout d key front ((k, ids) ∷ postings) (first, are) =
      let encoded = (encode_postings ids).0 in
      let more = contents postings in
      let ends : leb (length front + length encoded) (length (front ++ (encoded ++ more))) ≡ true =
        ground (arith, length-append front (encoded ++ more), length-append encoded more) in
      elim (Bool-cases (e.beq key k)) [
        | inl same ↦
            rw (same, ends, slice_between front encoded more)
              (listed_in-encode_postings d ids first)
        | inr other ↦ rw other (
            subst
              (λ n.
                listed_in d
                  (posted (bytes_of (front ++ (encoded ++ more)) (find key (layout n postings))))
                ≡ mem d (or_empty (find key postings)))
              (length-append front encoded)
              (subst
                (λ b.
                  listed_in d
                    (posted (bytes_of b (find key (layout (length (front ++ encoded)) postings))))
                  ≡ mem d (or_empty (find key postings)))
                (append_assoc front encoded more)
                (listed_in-layout d key (front ++ encoded) postings are)))
      ]
