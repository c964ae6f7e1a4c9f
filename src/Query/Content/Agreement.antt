-- ===== src/Query/Content/Agreement.antt =====
-- has_literal_match and find_literal_matches_static agree on whether a text occurs.
use fxi.Base.{
  ℕ, ◌+◌, ◌^◌, ◌≤◌, ◌<◌, ◌≡◌, refl, sym, arith, Bool, true, false, not, ◌&&◌, ◌||◌, Option, none,
  some, List, [], ◌∷◌, ◌++◌, map, length, length-append, All, Bool-cases, inl, inr, ltb,
  if◌then◌else◌,
}
use fxi.Query.Text.{Str, Std, byte_len}
use fxi.Query.Content.{lines, no_items, found, Memmem, Match, occurs, starts}
use fxi.Query.Content.Matches.{
  is_fast, add_match, exact_matches, unicode_matches, any_line, lowered_line, find_literal_matches,
  has_literal_match,
}
use fxi.Query.Content.Lines.{in_a_line}
use fxi.Query.Content.Hits.{no_items-ascii_matches}
use fxi.Utils.Tokenizer.{encode, as_bytes, all_ascii, to_ascii_lowercase}

-- A needle in a text is no longer than it.
starts-length : (needle hay : List ℕ) → starts needle hay ≡ true → length needle ≤ length hay
starts-length [] hay h = omega arith
starts-length (n ∷ needle) [] h = absurd (ground arith)
starts-length (n ∷ needle) (b ∷ hay) h = ground (arith, starts-length needle hay)

pub occurs-length : (needle hay : List ℕ) → occurs needle hay ≡ true → length needle ≤ length hay
occurs-length needle [] h = starts-length needle [] h
occurs-length needle (b ∷ hay) h =
    ground (arith, starts-length needle (b ∷ hay), occurs-length needle hay)

length-encode : (c : ℕ) → length (encode c) ≡ byte_len (c ∷ [])
unfolding encode
length-encode c = ground arith

length-as_bytes : (s : Str) → length (as_bytes s) ≡ byte_len s
length-as_bytes [] = refl
length-as_bytes (c ∷ s) =
    omega (arith, length-append (encode c) (as_bytes s), length-encode c, length-as_bytes s)

occurs_short :
    (needle hay : Str)
    → byte_len hay < byte_len needle
    → occurs (as_bytes needle) (as_bytes hay) ≡ false
occurs_short needle hay short = ground (
  arith,
  occurs-length (as_bytes needle) (as_bytes hay),
  length-as_bytes needle,
  length-as_bytes hay,
)

no_items-add_match :
    (place : Option ℕ) (k : ℕ) (l : Str) (len : ℕ) (rest : List Match)
    → no_items (add_match place k l len rest) ≡ (not (found place) && no_items rest)
no_items-add_match none k l len rest = refl
no_items-add_match (some pos) k l len rest = refl

pub no_items-append :
    {A : Type 0} (xs ys : List A) → no_items (xs ++ ys) ≡ (no_items xs && no_items ys)
no_items-append [] ys = refl
no_items-append (x ∷ xs) ys = refl

-- In lower case an ASCII text is lowered byte by byte, and no line gets longer.
abbrev pub IsPlainCase : Std → Str → Type 0
IsPlainCase std content =
    ((s : Str) → all_ascii s ≡ true → Std.to_lowercase std s ≡ map to_ascii_lowercase s)
    × All (λ l. byte_len (Std.to_lowercase std l) ≤ byte_len l) (lines content)

module _ (mm : Memmem) where
  pub no_items-exact_matches :
      (needle : Str) (k : ℕ) (ls : List Str)
      → no_items (exact_matches mm needle k ls) ≡ not (in_a_line (as_bytes needle) ls)
  unfolding exact_matches
  no_items-exact_matches needle k [] = refl
  no_items-exact_matches needle k (l ∷ ls) =
      let ih = no_items-exact_matches needle (k + 1) ls in
      let here = Memmem.found-find mm (as_bytes needle) (as_bytes l) in
      rw
        (
          no_items-add_match (Memmem.find mm (as_bytes needle) (as_bytes l)) k l (byte_len needle)
              (exact_matches mm needle (k + 1) ls),
          ih,
          here,
        )
        (ground arith)

  module _ (std : Std) where
    lowered :
        (needle line : Str)
        → ((s : Str) → all_ascii s ≡ true → Std.to_lowercase std s ≡ map to_ascii_lowercase s)
        → lowered_line mm std needle line ≡ Std.to_lowercase std line
    lowered needle line by_bytes = elim (Bool-cases (all_ascii line && all_ascii needle)) [
      | inl e ↦ rw e (sym (by_bytes line (ground arith)))
      | inr e ↦ rw e refl
    ]

    -- One line more in front.
    no_items-line :
        (needle needle_lower : Str) (k : ℕ) (l : Str) (rest : List Match) (more : Bool)
        → ((s : Str) → all_ascii s ≡ true → Std.to_lowercase std s ≡ map to_ascii_lowercase s)
        → byte_len (Std.to_lowercase std l) ≤ byte_len l
        → no_items rest ≡ not more
        → no_items (
            if ltb (byte_len l) (byte_len needle_lower)
            then rest
            else add_match
                (Memmem.find mm (as_bytes needle_lower) (as_bytes (lowered_line mm std needle l)))
                k
                l
                (byte_len needle)
                rest)
          ≡ not (
              found (Memmem.find mm (as_bytes needle_lower) (as_bytes (Std.to_lowercase std l)))
              || more)
    no_items-line needle needle_lower k l rest more by_bytes short h =
        let hay = as_bytes (Std.to_lowercase std l) in
        let here = Memmem.found-find mm (as_bytes needle_lower) hay in
        elim (Bool-cases (ltb (byte_len l) (byte_len needle_lower))) [
          | inl e ↦
              rw (e, here, occurs_short needle_lower (Std.to_lowercase std l) (ground arith)) h
          | inr e ↦
              rw
                (
                  e,
                  lowered needle l by_bytes,
                  no_items-add_match (Memmem.find mm (as_bytes needle_lower) hay) k l
                      (byte_len needle) rest,
                  h,
                )
                (ground arith)
        ]

    no_items-unicode_matches :
        (needle needle_lower : Str) (k : ℕ) (ls : List Str)
        → ((s : Str) → all_ascii s ≡ true → Std.to_lowercase std s ≡ map to_ascii_lowercase s)
        → All (λ l. byte_len (Std.to_lowercase std l) ≤ byte_len l) ls
        → no_items (unicode_matches mm std needle needle_lower k ls)
          ≡ not (any_line mm std needle_lower ls)
    unfolding unicode_matches any_line
    no_items-unicode_matches needle needle_lower k [] by_bytes short = refl
    no_items-unicode_matches needle needle_lower k (l ∷ ls) by_bytes (short, shorter) =
        no_items-line needle needle_lower k l
          (unicode_matches mm std needle needle_lower (k + 1) ls) (any_line mm std needle_lower ls)
          by_bytes short (no_items-unicode_matches needle needle_lower (k + 1) ls by_bytes shorter)

    pub no_items-find_literal_matches :
        (content text : Str)
        → 1 + length (as_bytes content) < 2 ^ 32
        → IsPlainCase std content
        → no_items (find_literal_matches mm std content text false)
          ≡ not (has_literal_match mm std content text)
    unfolding find_literal_matches has_literal_match
    no_items-find_literal_matches content text small (by_bytes, short) =
        let needle_lower = Std.to_lowercase std text in
        elim (Bool-cases (is_fast content text needle_lower)) [
          | inl e ↦
              rw
                (
                  e,
                  no_items-ascii_matches mm content text needle_lower small,
                  Memmem.found-find mm (as_bytes needle_lower)
                      (as_bytes (map to_ascii_lowercase content)),
                )
                refl
          | inr e ↦
              rw e (no_items-unicode_matches text needle_lower 0 (lines content) by_bytes short)
        ]
