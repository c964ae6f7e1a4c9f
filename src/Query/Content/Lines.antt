-- ===== src/Query/Content/Lines.antt =====
-- A needle without line breaks stands in a text exactly if it stands in a line of it.
use fxi.Base.{
  ℕ, ◌≡◌, refl, ap, ◌∙◌, arith, Bool, true, false, not, ◌&&◌, ◌||◌, List, [], ◌∷◌, ◌++◌, ◌==◌,
  Bool-cases, inl, inr,
}
use fxi.Query.Text.{Str, contains_char, push_first}
use fxi.Query.Content.{lines, starts_line_feed, starts, occurs}
use fxi.Query.Content.Verify.{first_line}
use fxi.Utils.Tokenizer.{encode, as_bytes}
use fxi.Utils.Tokenizer.Bytes.{encode_ascii}

-- Neither \n nor \r is among the bytes.
abbrev pub no_breaks : List ℕ → Bool
no_breaks [] = true
no_breaks (b ∷ bs) = not (b == 10) && (not (b == 13) && no_breaks bs)

abbrev pub in_a_line : List ℕ → List Str → Bool
in_a_line needle [] = false
in_a_line needle (l ∷ ls) = occurs needle (as_bytes l) || in_a_line needle ls

abbrev rest_lines : List Str → List Str
rest_lines [] = []
rest_lines (l ∷ ls) = ls

starts_break :
    (needle hay : List ℕ) (b : ℕ)
    → (b == 10 || b == 13) ≡ true
    → no_breaks needle ≡ true
    → starts needle (b ∷ hay) ≡ starts needle []
starts_break [] hay b h free = refl
starts_break (n ∷ needle) hay b h free = ground arith

-- Bytes that start alike for every needle still do behind the same bytes.
starts-behind :
    (needle e xs ys : List ℕ)
    → ((m : List ℕ) → no_breaks m ≡ true → starts m xs ≡ starts m ys)
    → no_breaks needle ≡ true
    → starts needle (e ++ xs) ≡ starts needle (e ++ ys)
starts-behind needle [] xs ys alike free = alike needle free
starts-behind [] (b ∷ e) xs ys alike free = refl
starts-behind (n ∷ needle) (b ∷ e) xs ys alike free =
    ap (λ t. n == b && t) (starts-behind needle e xs ys alike (ground arith))

occurs-behind :
    (needle e xs ys : List ℕ) (more : Bool)
    → ((m : List ℕ) → no_breaks m ≡ true → starts m xs ≡ starts m ys)
    → no_breaks needle ≡ true
    → occurs needle xs ≡ (occurs needle ys || more)
    → occurs needle (e ++ xs) ≡ (occurs needle (e ++ ys) || more)
occurs-behind needle [] xs ys more alike free h = h
occurs-behind needle (b ∷ e) xs ys more alike free h =
    let here = starts-behind needle (b ∷ e) xs ys alike free in
    let rest = occurs-behind needle e xs ys more alike free h in ground arith

first_line-push_first : (c : ℕ) (ls : List Str) → first_line (push_first c ls) ≡ c ∷ first_line ls
first_line-push_first c [] = refl
first_line-push_first c (l ∷ ls) = refl

rest_lines-push_first : (c : ℕ) (ls : List Str) → rest_lines (push_first c ls) ≡ rest_lines ls
rest_lines-push_first c [] = refl
rest_lines-push_first c (l ∷ ls) = refl

-- What `lines` does with the character in front.
data Front (c : ℕ) (s : Str) : Type 0 where
  line_feed : c ≡ 10 → lines (c ∷ s) ≡ [] ∷ lines s → Front c s
  line_break : c ≡ 13 → lines (c ∷ s) ≡ lines s → first_line (lines s) ≡ [] → Front c s
  in_line : lines (c ∷ s) ≡ push_first c (lines s) → Front c s

first_line-line_feed : (s : Str) → starts_line_feed s ≡ true → first_line (lines s) ≡ []
unfolding lines
first_line-line_feed [] h = refl
first_line-line_feed (d ∷ t) h = rw h refl

front : (c : ℕ) (s : Str) → Front c s
unfolding lines
front c s = elim (Bool-cases (c == 10)) [
  | inl e ↦ line_feed (ground arith) (rw e refl)
  | inr other ↦ elim (Bool-cases (c == 13 && starts_line_feed s)) [
    | inl e ↦ line_break (ground arith) (rw (other, e) refl) (first_line-line_feed s (ground arith))
    | inr e ↦ in_line (rw (other, e) refl)
  ]
]

lines_nil : lines [] ≡ []
unfolding lines
lines_nil = refl

starts-first_line :
    (s : Str) (needle : List ℕ)
    → no_breaks needle ≡ true
    → starts needle (as_bytes s) ≡ starts needle (as_bytes (first_line (lines s)))
starts-first_line [] needle free = rw lines_nil refl
starts-first_line (c ∷ s) needle free = elim (front c s) [
  | line_feed e l ↦ rw (l, e, encode_ascii 10 refl) (starts_break needle (as_bytes s) 10 refl free)
  | line_break e l first ↦
      rw (l, first, e, encode_ascii 13 refl) (starts_break needle (as_bytes s) 13 refl free)
  | in_line l ↦
      rw (l, first_line-push_first c (lines s))
        (starts-behind needle (encode c) (as_bytes s) (as_bytes (first_line (lines s)))
          (starts-first_line s) free)
]

-- A needle that is not empty stands in no line that is not there.
occurs_nil : (n : ℕ) (needle : List ℕ) → occurs (n ∷ needle) [] ≡ false
occurs_nil n needle = refl

in_a_line-first :
    (n : ℕ) (needle : List ℕ) (ls : List Str)
    → in_a_line (n ∷ needle) ls
      ≡ (occurs (n ∷ needle) (as_bytes (first_line ls)) || in_a_line (n ∷ needle) (rest_lines ls))
in_a_line-first n needle [] = refl
in_a_line-first n needle (l ∷ ls) = refl

occurs_break :
    (n : ℕ) (needle hay : List ℕ) (b : ℕ)
    → (b == 10 || b == 13) ≡ true
    → no_breaks (n ∷ needle) ≡ true
    → occurs (n ∷ needle) (b ∷ hay) ≡ occurs (n ∷ needle) hay
occurs_break n needle hay b h free = ground arith

pub occurs-lines :
    (s : Str) (n : ℕ) (needle : List ℕ)
    → no_breaks (n ∷ needle) ≡ true
    → occurs (n ∷ needle) (as_bytes s) ≡ in_a_line (n ∷ needle) (lines s)
occurs-lines [] n needle free = rw lines_nil refl
occurs-lines (c ∷ s) n needle free =
    let ih = occurs-lines s n needle free in
    elim (front c s) [
      | line_feed e l ↦
          rw (l, e, encode_ascii 10 refl) (occurs_break n needle (as_bytes s) 10 refl free ∙ ih)
      | line_break e l first ↦
          rw (l, e, encode_ascii 13 refl) (occurs_break n needle (as_bytes s) 13 refl free ∙ ih)
      | in_line l ↦
          rw
            (
              l,
              in_a_line-first n needle (push_first c (lines s)),
              first_line-push_first c (lines s),
              rest_lines-push_first c (lines s),
            )
            (occurs-behind (n ∷ needle) (encode c) (as_bytes s) (as_bytes (first_line (lines s)))
              (in_a_line (n ∷ needle) (rest_lines (lines s))) (starts-first_line s) free
              (ih ∙ in_a_line-first n needle (lines s)))
    ]

-- The bytes of a text without line breaks.
no_breaks-append : (xs ys : List ℕ) → no_breaks (xs ++ ys) ≡ (no_breaks xs && no_breaks ys)
no_breaks-append [] ys = refl
no_breaks-append (x ∷ xs) ys = let ih = no_breaks-append xs ys in ground arith

no_breaks-encode : (c : ℕ) → (c == 10) ≡ false → (c == 13) ≡ false → no_breaks (encode c) ≡ true
unfolding encode
no_breaks-encode c a b = ground arith

pub no_breaks-as_bytes :
    (s : Str)
    → contains_char 10 s ≡ false
    → contains_char 13 s ≡ false
    → no_breaks (as_bytes s) ≡ true
no_breaks-as_bytes [] a b = refl
no_breaks-as_bytes (c ∷ s) a b =
    let h = no_breaks-encode c (ground arith) (ground arith) in
    let ih = no_breaks-as_bytes s (ground arith) (ground arith) in
    rw (no_breaks-append (encode c) (as_bytes s), h, ih) refl
