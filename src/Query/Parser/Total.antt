-- ===== src/Query/Parser/Total.antt =====
-- The parser ends on every input: the fuel that parse_query gives is enough.
use fxi.Base.{
  ℕ, zero, suc, ◌+◌, ◌*◌, ◌≤◌, ◌<◌, ◌≡◌, arith, Option, some, length, Bool-cases, inl, inr,
}
use fxi.Query.Text.{Str, Std}
use fxi.Query.Syntax.{Nodes, not_node, nil, cons, push, Query}
use fxi.Query.Parser.{
  Parser, at, peeks, after_char, ends_and, skip_whitespace, parse_boost, parse_atom, boosted,
  parse_or, or_loop, parse_and, and_loop, parse_unary, parse_primary, parse_query, start, or_of,
  and_of,
}
use fxi.Query.Parser.Moves.{
  Starts, length-after_char, after_char_lt, length-skip, skip-Starts, Starts-skip,
  length-parse_boost, parse_atom_le, parse_atom_lt,
}

-- The step ends with at most n characters left.
abbrev Ends : {A : Type 0} → ℕ → Option (A × Parser) → Type 0
Ends {A} n r = (a : A) × (p : Parser) × (r ≡ some (a, p)) × (length p.rest ≤ n)

-- It ends with no more left than before, and with less where a term can start.
abbrev Consumes : Std → {A : Type 0} → Parser → Option (A × Parser) → Type 0
Consumes std {A} p r =
    (a : A) × (p' : Parser) × (r ≡ some (a, p'))
    × (length p'.rest ≤ length p.rest)
    × (Starts std p.rest → length p'.rest < length p.rest)

module _ (std : Std) where
  open std use {F32}

  mutual
    unfolding parse_or or_loop parse_and and_loop parse_unary parse_primary

    parse_or-Ends :
        (fuel : ℕ) (p : Parser)
        → 8 * length p.rest + 5 ≤ fuel
        → Ends (length p.rest) (parse_or std fuel p)
    parse_or-Ends zero p h = absurd (omega arith)
    parse_or-Ends (suc fuel) p h =
        let (node, p₁, e₁, l₁) = parse_and-Ends fuel p (omega arith) in
        let (nodes, p₂, e₂, l₂) = or_loop-Ends fuel (cons node nil) p₁ (omega arith) in
        (or_of std nodes, p₂, ground arith, omega arith)

    or_loop-Ends :
        (fuel : ℕ) (nodes : Nodes F32) (p : Parser)
        → 8 * length p.rest + 4 ≤ fuel
        → Ends (length p.rest) (or_loop std fuel nodes p)
    or_loop-Ends zero nodes p h = absurd (omega arith)
    or_loop-Ends (suc fuel) nodes p h =
        let p₁ = skip_whitespace std p in
        let q₀ = at p₁ (after_char b'|' p₁.rest) in
        let q = skip_whitespace std q₀ in
        elim (Bool-cases (peeks b'|' p₁.rest)) [
          | inl bar ↦
              let shorter : length q.rest < length p.rest =
                omega
                  (arith, length-skip std p, after_char_lt b'|' p₁.rest bar, length-skip std q₀) in
              let (node, p₂, e₁, l₁) = parse_and-Ends fuel q (omega arith) in
              let (nodes', p₃, e₂, l₂) = or_loop-Ends fuel (push nodes node) p₂ (omega arith) in
              (nodes', p₃, ground arith, omega arith)
          | inr no_bar ↦ (nodes, p₁, ground arith, length-skip std p)
        ]

    parse_and-Ends :
        (fuel : ℕ) (p : Parser)
        → 8 * length p.rest + 4 ≤ fuel
        → Ends (length p.rest) (parse_and std fuel p)
    parse_and-Ends zero p h = absurd (omega arith)
    parse_and-Ends (suc fuel) p h =
        let (nodes, p₁, e₁, l₁) = and_loop-Ends fuel nil p (omega arith) in
        (and_of std nodes, p₁, ground arith, l₁)

    and_loop-Ends :
        (fuel : ℕ) (nodes : Nodes F32) (p : Parser)
        → 8 * length p.rest + 3 ≤ fuel
        → Ends (length p.rest) (and_loop std fuel nodes p)
    and_loop-Ends zero nodes p h = absurd (omega arith)
    and_loop-Ends (suc fuel) nodes p h =
        let p₁ = skip_whitespace std p in
        let skipped : length p₁.rest ≤ length p.rest = length-skip std p in
        elim (Bool-cases (ends_and p₁.rest)) [
          | inl done ↦ (nodes, p₁, ground arith, skipped)
          | inr more ↦
              let (node, p₂, e₁, l₁, lt₁) = parse_unary-Ends fuel p₁ (omega arith) in
              let lt₂ : length p₂.rest < length p₁.rest = lt₁ (skip-Starts std p more) in
              let (nodes', p₃, e₂, l₂) = and_loop-Ends fuel (push nodes node) p₂ (omega arith) in
              (nodes', p₃, ground arith, omega arith)
        ]

    parse_unary-Ends :
        (fuel : ℕ) (p : Parser)
        → 8 * length p.rest + 2 ≤ fuel
        → Consumes std p (parse_unary std fuel p)
    parse_unary-Ends zero p h = absurd (omega arith)
    parse_unary-Ends (suc fuel) p h =
        let p₁ = skip_whitespace std p in
        let skipped : length p₁.rest ≤ length p.rest = length-skip std p in
        elim (Bool-cases (peeks b'-' p₁.rest)) [
          | inl minus ↦
              let q = at p₁ (after_char b'-' p₁.rest) in
              let shorter : length q.rest < length p.rest =
                omega (arith, after_char_lt b'-' p₁.rest minus) in
              let (inner, p₂, e₁, l₁, _) = parse_primary-Ends fuel q (omega arith) in
              (not_node inner, p₂, ground arith, omega arith, λ s. omega arith)
          | inr no_minus ↦ elim (Bool-cases (peeks b'^' p₁.rest)) [
            | inl caret ↦
                let b = parse_boost std (after_char b'^' p₁.rest) in
                let q = at p₁ b.1 in
                let shorter : length q.rest < length p.rest = omega (
                  arith,
                  after_char_lt b'^' p₁.rest caret,
                  length-parse_boost std (after_char b'^' p₁.rest),
                ) in
                let (inner, p₂, e₁, l₁, _) = parse_primary-Ends fuel q (omega arith) in
                (boosted std b.0 inner, p₂, ground arith, omega arith, λ s. omega arith)
            | inr no_caret ↦
                let (node, p₂, e₁, l₁, lt₁) = parse_primary-Ends fuel p₁ (omega arith) in
                (node, p₂, ground arith, omega arith, λ s. omega (arith, lt₁ (Starts-skip std p s)))
          ]
        ]

    parse_primary-Ends :
        (fuel : ℕ) (p : Parser)
        → 8 * length p.rest + 1 ≤ fuel
        → Consumes std p (parse_primary std fuel p)
    parse_primary-Ends zero p h = absurd (omega arith)
    parse_primary-Ends (suc fuel) p h =
        let p₁ = skip_whitespace std p in
        let skipped : length p₁.rest ≤ length p.rest = length-skip std p in
        elim (Bool-cases (peeks b'(' p₁.rest)) [
          | inl paren ↦
              let q = at p₁ (after_char b'(' p₁.rest) in
              let shorter : length q.rest < length p.rest =
                omega (arith, after_char_lt b'(' p₁.rest paren) in
              let (node, p₂, e₁, l₁) = parse_or-Ends fuel q (omega arith) in
              let l₂ : length (after_char b')' p₂.rest) ≤ length p₂.rest =
                length-after_char b')' p₂.rest in
              (node, at p₂ (after_char b')' p₂.rest), ground arith, omega arith, λ s. omega arith)
          | inr no_paren ↦ (
            (parse_atom std p₁).0,
            (parse_atom std p₁).1,
            ground arith,
            omega (arith, parse_atom_le std p₁),
            λ s. omega (arith, parse_atom_lt std p₁ (Starts-skip std p s) no_paren),
          )
        ]

  -- parse_query returns a query on every input, nested and malformed ones included.
  pub parse_query_total : (input : Str) → (q : Query F32) × (parse_query std input ≡ some q)
  unfolding parse_query
  parse_query_total input =
      let (node, p, e, l) = parse_or-Ends (8 * length input + 5) (start std input) (omega arith) in
      (record { root = node; filters = p.filters; options = p.options }, rw e)
