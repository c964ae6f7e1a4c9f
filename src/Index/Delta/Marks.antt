-- ===== src/Index/Delta/Marks.antt =====
-- What marking tombstones does to the valid documents of a path.
use fxi.Base.{
  ℕ, ◌/◌, ◌%◌, ◌^◌, ◌≤◌, ◌≡◌, refl, arith, bit_and, bit_or, Bool, true, false, not, ◌&&◌, none,
  some, List, [], ◌∷◌, ◌==◌, if◌then◌else◌, Bool-cases, Option-cases, inl, inr,
}
use fxi.Base.Bits.{bit_and_single, digit-bit_or}
use fxi.Base.Keys.{nat_eq, mem}
use fxi.Index.Documents.{Document, is_valid, has_flag, tombstone, set_tombstone}
use fxi.Index.Delta.{last_valid, mark, count}

-- A valid document of a path.
abbrev pub is_of : ℕ → Document → Bool
is_of path_id d = d.path_id == path_id && is_valid d

has_flag-set_tombstone : (flags : ℕ) → has_flag (set_tombstone flags) tombstone ≡ true
unfolding has_flag set_tombstone
has_flag-set_tombstone flags =
    let digit : bit_or flags 32 / 2 ^ 5 % 2 ≡ 1 = omega (arith, digit-bit_or 5 flags 32) in
    let test : bit_and (bit_or flags 32) 32 ≡ 32 =
      omega (arith, bit_and_single 5 (bit_or flags 32)) in
    rw test refl

-- A document as mark leaves it.
abbrev marked : List ℕ → Document → Document
marked ids d = if mem d.doc_id ids then record d { flags = set_tombstone d.flags } else d

is_valid-tombstone : (d : Document) → is_valid (record d { flags = set_tombstone d.flags }) ≡ false
unfolding is_valid
is_valid-tombstone d = let set_flag = has_flag-set_tombstone d.flags in ground arith

is_of-marked :
    (ids : List ℕ) (path_id : ℕ) (d : Document)
    → is_of path_id (marked ids d) ≡ (is_of path_id d && not (mem d.doc_id ids))
is_of-marked ids path_id d =
    let gone = is_valid-tombstone d in
    elim (Bool-cases (mem d.doc_id ids)) [
      | inl e ↦ rw e (ground arith)
      | inr e ↦ rw e (ground arith)
    ]

pub count-mark-le :
    (ids : List ℕ) (path_id : ℕ) (ds : List Document)
    → count (is_of path_id) (mark ids ds) ≤ count (is_of path_id) ds
unfolding mark
count-mark-le ids path_id [] = omega arith
count-mark-le ids path_id (d ∷ ds) =
    let ih = count-mark-le ids path_id ds in
    let here = is_of-marked ids path_id d in rw here (ground arith)

pub count-last_valid :
    (path_id : ℕ) (ds : List Document) → last_valid path_id ds ≡ none → count (is_of path_id) ds ≡ 0
unfolding last_valid
count-last_valid path_id [] h = refl
count-last_valid path_id (d ∷ ds) h = elim (Option-cases (last_valid path_id ds)) [
  | inl e ↦ let ih = count-last_valid path_id ds e in ground arith
  | inr (i, e) ↦ absurd (ground arith)
]

last_valid-count :
    (path_id : ℕ) (ds : List Document) → count (is_of path_id) ds ≡ 0 → last_valid path_id ds ≡ none
unfolding last_valid
last_valid-count path_id [] h = refl
last_valid-count path_id (d ∷ ds) h = ground (arith, last_valid-count path_id ds)

last_valid-here :
    (path_id : ℕ) (d : Document) (ds : List Document)
    → is_of path_id d ≡ true
    → last_valid path_id ds ≡ none
    → last_valid path_id (d ∷ ds) ≡ some d.doc_id
unfolding last_valid
last_valid-here path_id d ds e h = rw (h, e) refl

last_valid-there :
    (path_id : ℕ) (d : Document) (ds : List Document)
    → is_of path_id d ≡ false
    → last_valid path_id (d ∷ ds) ≡ last_valid path_id ds
unfolding last_valid
last_valid-there path_id d ds e = elim (Option-cases (last_valid path_id ds)) [
  | inl h ↦ rw (h, e) refl
  | inr (i, h) ↦ rw h refl
]

-- If a path has one valid document at most, marking the last one leaves none.
pub count-mark_last :
    (ids : List ℕ) (path_id id : ℕ) (ds : List Document)
    → count (is_of path_id) ds ≤ 1
    → last_valid path_id ds ≡ some id
    → mem id ids ≡ true
    → count (is_of path_id) (mark ids ds) ≡ 0
unfolding mark
count-mark_last ids path_id id [] n h m = refl
count-mark_last ids path_id id (d ∷ ds) n h m =
    let here = is_of-marked ids path_id d in
    let less = count-mark-le ids path_id ds in
    let rest = count-mark_last ids path_id id ds in
    elim (Bool-cases (is_of path_id d)) [
      | inl e ↦
          let zero_left : count (is_of path_id) ds ≡ 0 = ground arith in
          let found = last_valid-here path_id d ds e (last_valid-count path_id ds zero_left) in
          let same : d.doc_id ≡ id = ground arith in rw (here, e, same, m) ground arith
      | inr e ↦ let there = last_valid-there path_id d ds e in rw (here, e) ground arith
    ]
