-- ===== src/Query/Parser.antt =====
-- src/query/parser.rs, QueryParser: recursive descent over the characters that are left. The
-- functions that call one another take fuel, and give nothing when it runs out.
pub mod Date
pub mod Fields
pub mod Moves
pub mod Total
pub mod Boosts
use fxi.Base.{
  ℕ, zero, suc, ◌+◌, ◌*◌, Bool, true, false, not, ◌&&◌, ◌||◌, Option, none, some, List, [], ◌∷◌,
  ◌++◌, length, leb, ◌==◌, if◌then◌else◌, ◌>>=◌,
}
use fxi.Query.Text.{Str, Std, codes, is_empty, strip_prefix, span}
use fxi.Query.Syntax.{
  QueryNode, Nodes, literal, boosted_literal, phrase, regex, near, and_node, or_node, not_node,
  empty, nil, cons, push, QueryFilters, QueryOptions, no_filters, default_options, Query,
}
use fxi.Query.Parser.Fields.{Outcome, parse_field}

-- `rest` is the input from `pos` on.
pub record Parser : Type 0 where
  pub rest : Str
  pub filters : QueryFilters
  pub options : QueryOptions

abbrev pub at : Parser → Str → Parser
at p s = record p { rest = s }

-- peek_char() == Some(c)
abbrev pub peeks : ℕ → Str → Bool
peeks c [] = false
peeks c (d ∷ s) = d == c

-- consume_char(c)
abbrev pub after_char : ℕ → Str → Str
after_char c [] = []
after_char c (d ∷ s) = if d == c then s else d ∷ s

abbrev pub ends_and : Str → Bool
ends_and s = is_empty s || (peeks b')' s || peeks b'|' s)

module _ (std : Std) where
  open std use {F32, two, parse_f32, is_whitespace, is_alphanumeric}

  unfoldable pub skip_whitespace : Parser → Parser
  skip_whitespace p = at p (span is_whitespace p.rest).1

  -- The text up to `stop`, which is consumed if it is there.
  abbrev delimited : ℕ → Str → Str × Str
  delimited stop s =
      let (taken, rest) = span (λ c. not (c == stop)) s in (taken, after_char stop rest)

  unfoldable pub parse_phrase : Parser → QueryNode F32 × Parser
  parse_phrase p =
      let (text, rest) = delimited b'"' (after_char b'"' p.rest) in (phrase text, at p rest)

  -- `s` is what stands behind "re:/".
  unfoldable pub parse_regex : Str → Parser → QueryNode F32 × Parser
  parse_regex s p = let (pattern, rest) = delimited b'/' s in (regex pattern, at p rest)

  abbrev is_word_char : ℕ → Bool
  is_word_char c = (is_alphanumeric c || c == b'_') && not (c == b':')

  abbrev is_value_char : ℕ → Bool
  is_value_char c = not (is_whitespace c || (c == b'|' || c == b')'))

  abbrev is_symbol_char : ℕ → Bool
  is_symbol_char c = not (is_whitespace c || (c == b'|' || (c == b')' || c == b'(')))

  abbrev field_of : Str → Str → Parser → QueryNode F32 × Parser
  field_of field s p =
      let (value, rest) = span is_value_char s in
      let o = parse_field std field value p.filters p.options in
      (o.node, record { rest = rest; filters = o.filters; options = o.options })

  abbrev symbol_of : Str × Str → Parser → QueryNode F32 × Parser
  symbol_of (word, rest) p = (if is_empty word then empty else literal word, at p rest)

  abbrev term_of : Str × Str → Parser → QueryNode F32 × Parser
  term_of (word, []) p =
      if is_empty word then symbol_of (span is_symbol_char []) p else (literal word, at p [])
  term_of (word, c ∷ s) p =
      if c == b':'
      then field_of word s p
      else if is_empty word
      then symbol_of (span is_symbol_char (c ∷ s)) p
      else (literal word, at p (c ∷ s))

  unfoldable pub parse_term : Parser → QueryNode F32 × Parser
  parse_term p = term_of (span is_word_char p.rest) p

  abbrev is_boost_char : ℕ → Bool
  is_boost_char c = leb b'0' c && leb c b'9' || c == b'.'

  abbrev or_two : Option F32 → F32
  or_two none = two
  or_two (some b) = b

  -- Digits and dots behind `^`: up to a colon they are the boost; at another character they are
  -- read again; at the end of the input they are gone.
  abbrev boost_of : Str → Str × Str → F32 × Str
  boost_of start (number, []) = (two, [])
  boost_of start (number, c ∷ s) =
      if c == b':' then (or_two (parse_f32 number), s) else (two, start)

  unfoldable pub parse_boost : Str → F32 × Str
  parse_boost s = boost_of s (span is_boost_char s)

  unfoldable pub boosted : F32 → QueryNode F32 → QueryNode F32
  boosted boost (literal text) = boosted_literal text boost
  boosted boost (phrase text) = boosted_literal text boost
  boosted boost other = other

  -- nodes.len() is 0, 1 or more.
  abbrev and_of : Nodes F32 → QueryNode F32
  and_of nil = empty
  and_of (cons n nil) = n
  and_of (cons n (cons m ns)) = and_node (cons n (cons m ns))

  abbrev or_of : Nodes F32 → QueryNode F32
  or_of nil = or_node nil
  or_of (cons n nil) = n
  or_of (cons n (cons m ns)) = or_node (cons n (cons m ns))

  abbrev Step : Type 0 → Type 0
  Step A = Option (A × Parser)

  -- The branches of parse_primary that do not recur.
  unfoldable pub parse_atom : Parser → QueryNode F32 × Parser
  unfolding parse_phrase parse_regex parse_term
  parse_atom p =
      if peeks b'"' p.rest then parse_phrase p else elim (strip_prefix (codes "re:/") p.rest) [
        | some s ↦ parse_regex s p
        | none ↦ parse_term p
      ]

  unfoldable mutual
    pub parse_or : (fuel : ℕ) → Parser → Step (QueryNode F32)
    parse_or zero p = none
    parse_or (suc fuel) p = do
      (node, p₁) ← parse_and fuel p
      (nodes, p₂) ← or_loop fuel (cons node nil) p₁
      some (or_of nodes, p₂)

    pub or_loop : (fuel : ℕ) → Nodes F32 → Parser → Step (Nodes F32)
    or_loop zero nodes p = none
    or_loop (suc fuel) nodes p =
        let p₁ = skip_whitespace p in
        elim (peeks b'|' p₁.rest) [
          | true ↦ (do
            (node, p₂) ← parse_and fuel (skip_whitespace (at p₁ (after_char b'|' p₁.rest)))
            or_loop fuel (push nodes node) p₂)
          | false ↦ some (nodes, p₁)
        ]

    pub parse_and : (fuel : ℕ) → Parser → Step (QueryNode F32)
    parse_and zero p = none
    parse_and (suc fuel) p = do (nodes, p₁) ← and_loop fuel nil p; some (and_of nodes, p₁)

    pub and_loop : (fuel : ℕ) → Nodes F32 → Parser → Step (Nodes F32)
    and_loop zero nodes p = none
    and_loop (suc fuel) nodes p =
        let p₁ = skip_whitespace p in
        elim (ends_and p₁.rest) [
          | true ↦ some (nodes, p₁)
          | false ↦ (do (node, p₂) ← parse_unary fuel p₁; and_loop fuel (push nodes node) p₂)
        ]

    pub parse_unary : (fuel : ℕ) → Parser → Step (QueryNode F32)
    parse_unary zero p = none
    parse_unary (suc fuel) p =
        let p₁ = skip_whitespace p in
        elim (peeks b'-' p₁.rest) [
          | true ↦ (do
            (inner, p₂) ← parse_primary fuel (at p₁ (after_char b'-' p₁.rest))
            some (not_node inner, p₂))
          | false ↦ elim (peeks b'^' p₁.rest) [
            | true ↦
                let b = parse_boost (after_char b'^' p₁.rest) in
                (do (inner, p₂) ← parse_primary fuel (at p₁ b.1); some (boosted b.0 inner, p₂))
            | false ↦ parse_primary fuel p₁
          ]
        ]

    pub parse_primary : (fuel : ℕ) → Parser → Step (QueryNode F32)
    parse_primary zero p = none
    parse_primary (suc fuel) p =
        let p₁ = skip_whitespace p in
        elim (peeks b'(' p₁.rest) [
          | true ↦ (do
            (node, p₂) ← parse_or fuel (at p₁ (after_char b'(' p₁.rest))
            some (node, at p₂ (after_char b')' p₂.rest)))
          | false ↦ some (parse_atom p₁)
        ]

  abbrev start : Str → Parser
  start input = record { rest = input; filters = no_filters; options = default_options }

  -- Every nested call stands behind a character that was consumed; eight rounds for each are enough.
  unfoldable pub parse_query : Str → Option (Query F32)
  parse_query input = do
    (node, p) ← parse_or (8 * length input + 5) (start input)
    some (record { root = node; filters = p.filters; options = p.options })
