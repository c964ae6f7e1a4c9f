-- ===== src/Query/Parser/Moves.antt =====
-- How much of the input the parts of the parser that do not recur leave.
use fxi.Base.{
  ℕ, ◌+◌, ◌≤◌, ◌<◌, ◌≡◌, refl, ap, ◌∙◌, arith, Bool, true, false, not, some, [], ◌∷◌, length, ◌==◌,
  Bool-cases, Option-cases, false≢true, sym, subst, inl, inr,
}
use fxi.Query.Text.{Str, Std, codes, is_empty, strip_prefix, span}
use fxi.Query.Parser.{
  Parser, peeks, after_char, ends_and, skip_whitespace, delimited, parse_phrase, parse_regex,
  is_word_char, is_value_char, is_symbol_char, field_of, symbol_of, term_of, parse_term,
  is_boost_char, boost_of, parse_boost, parse_atom,
}

-- What is taken and what is left make up the text.
length-span :
    (test : ℕ → Bool) (s : Str) → length (span test s).0 + length (span test s).1 ≡ length s
unfolding span
length-span test [] = refl
length-span test (c ∷ s) = ground (arith, length-span test s)

span_first :
    (test : ℕ → Bool) (c : ℕ) (s : Str) → test c ≡ true → length (span test (c ∷ s)).1 ≤ length s
unfolding span
span_first test c s e = ground (arith, length-span test s)

span_stuck : (test : ℕ → Bool) (c : ℕ) (s : Str) → test c ≡ false → (span test (c ∷ s)).1 ≡ c ∷ s
unfolding span
span_stuck test c s e = ground arith

span_taken :
    (test : ℕ → Bool) (c : ℕ) (s : Str) → test c ≡ true → (span test (c ∷ s)).1 ≡ (span test s).1
unfolding span
span_taken test c s e = ground arith

span_nothing : (test : ℕ → Bool) (s : Str) → (span test s).0 ≡ [] → (span test s).1 ≡ s
unfolding span
span_nothing test [] e = refl
span_nothing test (c ∷ s) e = ground arith

pub length-after_char : (c : ℕ) (s : Str) → length (after_char c s) ≤ length s
length-after_char c [] = omega arith
length-after_char c (d ∷ s) = ground arith

pub after_char_lt : (c : ℕ) (s : Str) → peeks c s ≡ true → length (after_char c s) < length s
after_char_lt c [] e = ground arith
after_char_lt c (d ∷ s) e = ground arith

strip_prefix_le : (q s t : Str) → strip_prefix q s ≡ some t → length t + length q ≤ length s
strip_prefix_le [] s t e = ground arith
strip_prefix_le (c ∷ q) [] t e = ground arith
strip_prefix_le (c ∷ q) (d ∷ s) t e = ground (arith, strip_prefix_le q s t)

module _ (std : Std) where
  open std use {F32, two, is_whitespace}

  -- A term can start here.
  abbrev pub Starts : Str → Type 0
  Starts s = (is_empty s ≡ false) × (ends_and s ≡ false) × ((span is_whitespace s).1 ≡ s)

  pub length-skip : (p : Parser) → length (skip_whitespace std p).rest ≤ length p.rest
  unfolding skip_whitespace
  length-skip p = omega (arith, length-span is_whitespace p.rest)

  pub length-parse_boost : (s : Str) → length (parse_boost std s).1 ≤ length s
  unfolding parse_boost
  length-parse_boost s =
      boosts (span (is_boost_char std) s) (omega (arith, length-span (is_boost_char std) s))
    where
      boosts : (r : Str × Str) → length r.1 ≤ length s → length (boost_of std s r).1 ≤ length s
      boosts (n, []) h = omega arith
      boosts (n, c ∷ t) h = ground arith

  span-span : (test : ℕ → Bool) (s : Str) → (span test (span test s).1).1 ≡ (span test s).1
  span-span test [] = unfold span in refl
  span-span test (c ∷ s) = elim (Bool-cases (test c)) [
    | inl e ↦ rw (span_taken test c s e) (span-span test s)
    | inr e ↦ rw (span_stuck test c s e) (span_stuck test c s e)
  ]

  -- Behind the spaces a term starts, unless the chain of terms ends there.
  pub skip-Starts :
      (p : Parser)
      → ends_and (skip_whitespace std p).rest ≡ false
      → Starts (skip_whitespace std p).rest
  unfolding skip_whitespace
  skip-Starts p e = (ground arith, e, span-span is_whitespace p.rest)

  pub Starts-skip : (p : Parser) → Starts p.rest → Starts (skip_whitespace std p).rest
  unfolding skip_whitespace
  Starts-skip p h = subst Starts (sym h.2) h

  delimited_le : (stop : ℕ) (s : Str) → length (delimited std stop s).1 ≤ length s
  delimited_le stop s = omega (
    arith,
    length-span (λ c. not (c == stop)) s,
    length-after_char stop (span (λ c. not (c == stop)) s).1,
  )

  field_of_le : (field s : Str) (p : Parser) → length (field_of std field s p).1.rest ≤ length s
  field_of_le field s p = omega (arith, length-span (is_value_char std) s)

  -- What is left behind a symbol is less than the text, where it can start one.
  symbol_lt :
      (c : ℕ) (s : Str) (p : Parser)
      → is_symbol_char std c ≡ true
      → length (symbol_of std (span (is_symbol_char std) (c ∷ s)) p).1.rest < length (c ∷ s)
  symbol_lt c s p e = omega (arith, span_first (is_symbol_char std) c s e)

  term_of_le :
      (s : Str) (p : Parser) (r : Str × Str)
      → length r.1 ≤ length s
      → length (term_of std r p).1.rest ≤ length s
  term_of_le s p (word, []) h = ground (arith, length-span (is_symbol_char std) [])
  term_of_le s p (word, c ∷ t) h =
      ground (arith, field_of_le word t p, length-span (is_symbol_char std) (c ∷ t))

  parse_term_le : (p : Parser) → length (parse_term std p).1.rest ≤ length p.rest
  unfolding parse_term
  parse_term_le p =
      term_of_le p.rest p (span (is_word_char std) p.rest)
        (omega (arith, length-span (is_word_char std) p.rest))

  parse_regex_le : (s : Str) (p : Parser) → length (parse_regex std s p).1.rest ≤ length s
  unfolding parse_regex
  parse_regex_le s p = delimited_le b'/' s

  parse_phrase_lt :
      (p : Parser) → peeks b'"' p.rest ≡ true → length (parse_phrase std p).1.rest < length p.rest
  unfolding parse_phrase
  parse_phrase_lt p e =
      omega (arith, delimited_le b'"' (after_char b'"' p.rest), after_char_lt b'"' p.rest e)

  -- The three branches of an atom.
  atom_bound :
      (p : Parser) (n : ℕ)
      → (peeks b'"' p.rest ≡ true → length (parse_phrase std p).1.rest ≤ n)
      → ((s : Str)
          → strip_prefix (codes "re:/") p.rest ≡ some s
          → length (parse_regex std s p).1.rest ≤ n)
      → length (parse_term std p).1.rest ≤ n
      → length (parse_atom std p).1.rest ≤ n
  unfolding parse_atom
  atom_bound p n quoted slashed word = elim (Bool-cases (peeks b'"' p.rest)) [
    | inl e ↦ rw e (quoted e)
    | inr e ↦ rw e (elim (Option-cases (strip_prefix (codes "re:/") p.rest)) [
      | inl f ↦ rw f word
      | inr (s, f) ↦ rw f (slashed s f)
    ])
  ]

  pub parse_atom_le : (p : Parser) → length (parse_atom std p).1.rest ≤ length p.rest
  parse_atom_le p =
      atom_bound p (length p.rest) (λ e. omega (arith, parse_phrase_lt p e))
        (λ s f. omega (arith, parse_regex_le s p, strip_prefix_le (codes "re:/") p.rest s f))
        (parse_term_le p)

  -- Where a term can start, an atom takes a character at least.
  module _ (c : ℕ) (s : Str) (starts : Starts (c ∷ s)) (open_paren : (c == b'(') ≡ false) where
    not_space : is_whitespace c ≡ false
    not_space = elim (Bool-cases (is_whitespace c)) [
      | inl e ↦ absurd (omega (arith, ap length starts.2, span_first is_whitespace c s e))
      | inr e ↦ e
    ]

    symbol_first : is_symbol_char std c ≡ true
    symbol_first = ground (arith, not_space, starts.1)

    term_of_lt :
        (p : Parser) (r : Str × Str)
        → length r.0 + length r.1 ≡ length (c ∷ s)
        → (r.0 ≡ [] → r.1 ≡ c ∷ s)
        → length (term_of std r p).1.rest < length (c ∷ s)
    term_of_lt p ([], []) h whole = absurd (omega arith)
    term_of_lt p (w ∷ ws, []) h whole = ground arith
    term_of_lt p ([], d ∷ t) h whole =
        ground (arith, field_of_le [] t p, whole refl, symbol_lt c s p symbol_first)
    term_of_lt p (w ∷ ws, d ∷ t) h whole = ground (arith, field_of_le (w ∷ ws) t p)

    parse_term_lt : (p : Parser) → p.rest ≡ c ∷ s → length (parse_term std p).1.rest ≤ length s
    unfolding parse_term
    parse_term_lt p e = omega (
      arith,
      term_of_lt p (span (is_word_char std) p.rest)
          (length-span (is_word_char std) p.rest ∙ ap length e)
          (λ nothing. span_nothing (is_word_char std) p.rest nothing ∙ e),
    )

    atom_of_cons_lt : (p : Parser) → p.rest ≡ c ∷ s → length (parse_atom std p).1.rest ≤ length s
    atom_of_cons_lt p e =
        atom_bound p (length s) (λ q. omega (arith, parse_phrase_lt p q, ap length e))
          (λ t f.
            omega
              (arith, parse_regex_le t p, strip_prefix_le (codes "re:/") p.rest t f, ap length e))
          (parse_term_lt p e)

  pub parse_atom_lt :
      (p : Parser)
      → Starts p.rest
      → peeks b'(' p.rest ≡ false
      → length (parse_atom std p).1.rest < length p.rest
  parse_atom_lt p h e = go p.rest refl h e
    where
      go :
          (s : Str)
          → p.rest ≡ s
          → Starts s
          → peeks b'(' s ≡ false
          → length (parse_atom std p).1.rest < length p.rest
      go [] same h e = absurd (false≢true (sym h.0))
      go (c ∷ s) same h e = omega (arith, atom_of_cons_lt c s h e p same, ap length same)
