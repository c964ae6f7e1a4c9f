-- ===== src/Query/Content/Runs.antt =====
-- The matches in concrete texts, and the agreement of the two searches at one of them.
use fxi.Base.{
  ℕ, zero, suc, ◌+◌, ◌-◌, ◌<◌, ◌≡◌, refl, arith, false, not, Option, none, some, List, [], ◌∷◌, map,
  length, ◌==◌, subst, if◌then◌else◌, Bool-cases, inl, inr,
}
use fxi.Query.Text.{Str, codes}
use fxi.Query.Ascii.{ascii}
use fxi.Query.Plan.{
  VerificationStep, literal, phrase, regex, near, and_step, or_step, not_step, vnil, vcons,
}
use fxi.Query.Content.{lines, starts, occurs, found, no_items, Memmem, Regexes, Match}
use fxi.Query.Content.Matches.{
  ascii_matches, exact_matches, find_literal_matches, regex_lines, find_regex_matches,
}
use fxi.Query.Content.Proximity.{on_hit, near_lines, find_proximity_matches}
use fxi.Query.Content.Verify.{has_match, verify_content}
use fxi.Query.Content.Presence.{IsPlain, has_match-verify_content}
use fxi.Utils.Tokenizer.{as_bytes, encode}

abbrev pub next : Option ℕ → Option ℕ
next none = none
next (some n) = some (suc n)

abbrev pub place_of : List ℕ → List ℕ → Option ℕ
place_of needle [] = if starts needle [] then some 0 else none
place_of needle (h ∷ hay) = if starts needle (h ∷ hay) then some 0 else next (place_of needle hay)

found_next : (o : Option ℕ) → found (next o) ≡ found o
found_next none = refl
found_next (some n) = refl

pub found-place_of : (needle hay : List ℕ) → found (place_of needle hay) ≡ occurs needle hay
found-place_of needle [] = elim (Bool-cases (starts needle [])) [
  | inl e ↦ rw e refl
  | inr e ↦ rw e refl
]
found-place_of needle (h ∷ hay) = elim (Bool-cases (starts needle (h ∷ hay))) [
  | inl e ↦ rw e refl
  | inr e ↦ rw (e, found_next (place_of needle hay), found-place_of needle hay) refl
]

-- The places from `i` on, once `skip` more bytes are passed.
abbrev pub places : List ℕ → (skip i : ℕ) → List ℕ → List ℕ
places needle zero i [] = if starts needle [] then i ∷ [] else []
places needle (suc skip) i [] = []
places needle zero i (h ∷ hay) =
    let here = i ∷ places needle (length needle - 1) (i + 1) hay in
    let later = places needle 0 (i + 1) hay in if starts needle (h ∷ hay) then here else later
places needle (suc skip) i (h ∷ hay) = places needle skip (i + 1) hay

pub no_items-places :
    (needle : List ℕ) (i : ℕ) (hay : List ℕ)
    → no_items (places needle 0 i hay) ≡ not (occurs needle hay)
no_items-places needle i [] = elim (Bool-cases (starts needle [])) [
  | inl e ↦ rw e refl
  | inr e ↦ rw e refl
]
no_items-places needle i (h ∷ hay) = elim (Bool-cases (starts needle (h ∷ hay))) [
  | inl e ↦ rw e refl
  | inr e ↦ rw (e, no_items-places needle (i + 1) hay) refl
]

abbrev pub byte_place : ℕ → List ℕ → Option ℕ
byte_place b [] = none
byte_place b (h ∷ hay) = if b == h then some 0 else next (byte_place b hay)

next_below :
    (place : Option ℕ) (len n : ℕ)
    → ((m : ℕ) → place ≡ some m → m < len)
    → next place ≡ some n
    → n < suc len
next_below none len n below h = absurd (ground arith)
next_below (some m) len n below h = let b = below m refl in ground arith

pub byte_place-length : (b : ℕ) (hay : List ℕ) (n : ℕ) → byte_place b hay ≡ some n → n < length hay
byte_place-length b [] n h = absurd (ground arith)
byte_place-length b (c ∷ hay) n h = elim (Bool-cases (b == c)) [
  | inl e ↦ ground arith
  | inr e ↦
      next_below (byte_place b hay) (length hay) n (byte_place-length b hay)
        (subst (λ t. (if t then some 0 else next (byte_place b hay)) ≡ some n) e h)
]

abbrev pub byte_places : ℕ → (i : ℕ) → List ℕ → List ℕ
byte_places b i [] = []
byte_places b i (h ∷ hay) =
    let rest = byte_places b (i + 1) hay in if b == h then i ∷ rest else rest

abbrev pub searches : Memmem
searches = record {
  memchr = byte_place;
  memchr_iter = λ b. λ hay. byte_places b 0 hay;
  find = place_of;
  find_iter = λ needle. λ hay. places needle 0 0 hay;
  memchr-length = byte_place-length;
  found-find = found-place_of;
  no_items-find_iter = λ needle. λ hay. no_items-places needle 0 hay;
}

abbrev pub with_end : ℕ → Option ℕ → Option (ℕ × ℕ)
with_end len none = none
with_end len (some n) = some (n, n + len)

-- Patterns that stand for themselves; "(" does not compile.
abbrev pub texts : Regexes
texts = record {
  Regex = Str;
  get_or_compile = λ p. if occurs (40 ∷ []) p then none else some p;
  is_match = λ p. λ s. occurs (as_bytes p) (as_bytes s);
  find = λ p. λ s. with_end (length p) (place_of (as_bytes p) (as_bytes s));
}

abbrev content : Str
content = codes "one\nTwo\nthree"

abbrev steps : VerificationStep ℕ
steps = and_step (
    vcons (literal (codes "tWO")) (
      vcons (phrase (codes "Two") false) (
        vcons (or_step (vcons (regex (codes "thr")) (vcons (regex (codes "(")) vnil))) (
          vcons (near (codes "ONE" ∷ codes "three" ∷ []) 2)
            (vcons (not_step (near (codes "one" ∷ codes "three" ∷ []) 1)) vnil)))))

verified :
    map {B = ℕ × ℕ × ℕ}
      (λ (m : Match). (m.line_number, m.start, m.end))
      (verify_content ascii searches texts content steps)
    ≡ (2, 0, 3) ∷ (2, 0, 3) ∷ (3, 0, 3) ∷ (1, 0, 3) ∷ (1, 0, 0) ∷ []
unfolding verify_content find_literal_matches ascii_matches exact_matches lines encode
    find_regex_matches regex_lines find_proximity_matches on_hit near_lines
verified = refl

has_match-verify_content_example :
    has_match ascii searches texts content steps
    ≡ not (no_items (verify_content ascii searches texts content steps))
unfolding IsPlain lines encode
has_match-verify_content_example =
    has_match-verify_content ascii searches texts content (ground arith)
      (λ s. λ h. refl, (omega arith, (omega arith, (omega arith, tt)))) steps
      (refl, (tt, ((refl, refl, refl), ((refl, (tt, tt)), (tt, (tt, tt))))))
