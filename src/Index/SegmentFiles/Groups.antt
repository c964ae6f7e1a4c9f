-- ===== src/Index/SegmentFiles/Groups.antt =====
-- The groups of sorted pairs hold the pairs.
use fxi.Base.{
  ℕ, ◌^◌, ◌≤◌, ◌<◌, ◌≡◌, refl, sym, subst, ap, arith, Bool, true, false, ◌&&◌, ◌||◌, List, [], ◌∷◌,
  length, All, ltb, leb, ◌==◌, Bool-cases, inl, inr,
}
use fxi.Base.Keys.{nat_eq, mem, find}
use fxi.Index.Delta.{or_empty}
use fxi.Index.SegmentFiles.{is_sorted}
use fxi.Index.SegmentFiles.Layout.{AllIds}
use fxi.Index.SegmentFiles.Grams.{AreTrigrams}
use fxi.Index.SegmentFiles.Flat.{in_front, groups_of}

-- In the order of sort_unstable on pairs.
abbrev pub are_sorted : List (ℕ × ℕ) → Bool
are_sorted [] = true
are_sorted (p ∷ []) = true
are_sorted (p ∷ q ∷ pairs) = (ltb p.0 q.0 || (p.0 == q.0 && leb p.1 q.1)) && are_sorted (q ∷ pairs)

abbrev pub has_pair : ℕ → ℕ → List (ℕ × ℕ) → Bool
has_pair t d [] = false
has_pair t d (p ∷ pairs) = (t == p.0 && d == p.1) || has_pair t d pairs

-- The first group is that of the first pair.
groups_of_first :
    (p : ℕ × ℕ) (pairs : List (ℕ × ℕ))
    → (ids : List ℕ) × (gs : List (ℕ × List ℕ)) × (groups_of (p ∷ pairs) ≡ (p.0, p.1 ∷ ids) ∷ gs)
unfolding groups_of
groups_of_first (t, d) pairs = split (groups_of pairs)
  where
    split :
        (groups : List (ℕ × List ℕ))
        → (ids : List ℕ) × (gs : List (ℕ × List ℕ)) × (in_front (t, d) groups ≡ (t, d ∷ ids) ∷ gs)
    split [] = ([], [], refl)
    split ((u, ids) ∷ groups) = elim (Bool-cases (t == u)) [
      | inl e ↦
          let same : u ≡ t = ground arith in
          (ids, groups, rw e (ap (λ k. (k, d ∷ ids) ∷ groups) same))
      | inr e ↦ ([], (u, ids) ∷ groups, rw e refl)
    ]

has_pair-below :
    (t d : ℕ) (q : ℕ × ℕ) (pairs : List (ℕ × ℕ))
    → are_sorted (q ∷ pairs) ≡ true
    → t < q.0
    → has_pair t d (q ∷ pairs) ≡ false
has_pair-below t d q [] h lt = ground arith
has_pair-below t d q (r ∷ pairs) h lt =
    let ih = has_pair-below t d r pairs (ground arith) (ground arith) in ground arith

-- What is known of the groups of sorted pairs.
pub record AreGroups (pairs : List (ℕ × ℕ)) (groups : List (ℕ × List ℕ)) : Type 0 where
  pub sorted_ids : All (λ (g : ℕ × List ℕ). is_sorted g.1 ≡ true) groups
  pub fit : AreTrigrams groups × AllIds groups
  pub no_more : length groups ≤ length pairs
  pub same : (t d : ℕ) → mem d (or_empty (find t groups)) ≡ has_pair t d pairs

abbrev pub ArePairs : List (ℕ × ℕ) → Type 0
ArePairs pairs = All (λ (p : ℕ × ℕ). (p.0 < 2 ^ 32) × (p.1 < 2 ^ 32)) pairs

in_front-AreGroups :
    (t d : ℕ) (q : ℕ × ℕ) (pairs : List (ℕ × ℕ)) (ids : List ℕ) (gs : List (ℕ × List ℕ))
    → are_sorted ((t, d) ∷ q ∷ pairs) ≡ true
    → t < 2 ^ 32
    → d < 2 ^ 32
    → AreGroups (q ∷ pairs) ((q.0, q.1 ∷ ids) ∷ gs)
    → AreGroups ((t, d) ∷ q ∷ pairs) (in_front (t, d) ((q.0, q.1 ∷ ids) ∷ gs))
in_front-AreGroups t d q pairs ids gs h ht hd g = elim (Bool-cases (t == q.0)) [
  | inl e ↦
      let (first, more) = g.sorted_ids in
      let ((tq, keys), (all, others)) = g.fit in
      rw e (record {
        sorted_ids = (ground arith, more);
        fit = ((tq, keys), ((hd, all), others));
        no_more = omega (arith, g.no_more);
        same = λ u. λ x. joined u x e (g.same u x);
      })
  | inr e ↦
      let (keys, all) = g.fit in
      rw e (record {
        sorted_ids = (refl, g.sorted_ids);
        fit = ((ht, keys), ((hd, tt), all));
        no_more = omega (arith, g.no_more);
        same = λ u. λ x. apart u x e (g.same u x);
      })
]
  where
    joined :
        (u x : ℕ)
        → (t == q.0) ≡ true
        → mem x (or_empty (find u ((q.0, q.1 ∷ ids) ∷ gs))) ≡ has_pair u x (q ∷ pairs)
        → mem x (or_empty (find u ((q.0, d ∷ q.1 ∷ ids) ∷ gs))) ≡ has_pair u x ((t, d) ∷ q ∷ pairs)
    joined u x e ih = elim (Bool-cases (u == q.0)) [
      | inl is ↦
          let ih' = rw is at ih in
          let hit : (u == t) ≡ true = ground arith in rw (is, hit) (ap (λ z. x == d || z) ih')
      | inr other ↦
          let ih' = rw other at ih in
          let miss : (u == t) ≡ false = ground arith in rw (other, miss) ih'
    ]

    apart :
        (u x : ℕ)
        → (t == q.0) ≡ false
        → mem x (or_empty (find u ((q.0, q.1 ∷ ids) ∷ gs))) ≡ has_pair u x (q ∷ pairs)
        → mem x (or_empty (find u ((t, d ∷ []) ∷ (q.0, q.1 ∷ ids) ∷ gs)))
          ≡ has_pair u x ((t, d) ∷ q ∷ pairs)
    apart u x e ih = elim (Bool-cases (u == t)) [
      | inl is ↦
          let none_below = has_pair-below u x q pairs (ground arith) (ground arith) in
          rw (is, none_below) (ground arith)
      | inr other ↦ rw (other, ih) refl
    ]

pub groups_of-AreGroups :
    (pairs : List (ℕ × ℕ))
    → are_sorted pairs ≡ true
    → ArePairs pairs
    → AreGroups pairs (groups_of pairs)
unfolding groups_of
groups_of-AreGroups [] h are = record {
  sorted_ids = tt;
  fit = (tt, tt);
  no_more = omega arith;
  same = λ t. λ d. refl;
}
groups_of-AreGroups ((t, d) ∷ []) h ((ht, hd), are) = record {
  sorted_ids = (refl, tt);
  fit = ((ht, tt), ((hd, tt), tt));
  no_more = omega arith;
  same = λ u. λ x. elim (Bool-cases (u == t)) [ inl e ↦ rw e (ground arith) | inr e ↦ rw e refl ];
}
groups_of-AreGroups ((t, d) ∷ q ∷ pairs) h ((ht, hd), are) =
    let (ids, gs, first) = groups_of_first q pairs in
    let ih =
      subst (AreGroups (q ∷ pairs)) first (groups_of-AreGroups (q ∷ pairs) (ground arith) are) in
    subst (λ g. AreGroups ((t, d) ∷ q ∷ pairs) (in_front (t, d) g)) (sym first)
      (in_front-AreGroups t d q pairs ids gs h ht hd ih)
