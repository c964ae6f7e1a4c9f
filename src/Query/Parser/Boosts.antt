-- ===== src/Query/Parser/Boosts.antt =====
-- src/query/parser.rs, parse_unary: a boost sign before a number.
use fxi.Base.{ℕ, suc, ◌*◌, ◌≡◌, refl, arith, Bool, true, false, ◌&&◌, some, [], ◌∷◌, length}
use fxi.Query.Text.{Str, Std, span}
use fxi.Query.Syntax.{empty, Query, no_filters, default_options, push, nil, cons}
use fxi.Query.Parser.{
  start, parse_query, parse_or, parse_unary, parse_and, and_loop, or_loop, skip_whitespace,
  parse_boost, boosted, parse_atom, is_boost_char,
}

module _ (std : Std) where
  open std use {F32, two, is_whitespace}

  abbrev pub all_boost : Str → Bool
  all_boost [] = true
  all_boost (c ∷ s) = is_boost_char std c && all_boost s

  abbrev pub nothing : Query F32
  nothing = record { root = empty; filters = no_filters; options = default_options }

  span-all_boost : (s : Str) → all_boost s ≡ true → span (is_boost_char std) s ≡ (s, [])
  unfolding span
  span-all_boost [] h = refl
  span-all_boost (c ∷ s) h =
      let ih = span-all_boost s (ground arith) in
      let here : is_boost_char std c ≡ true = ground arith in rw (here, ih) refl

  parse_boost-all_boost : (s : Str) → all_boost s ≡ true → parse_boost std s ≡ (two, [])
  unfolding parse_boost
  parse_boost-all_boost s h = rw (span-all_boost s h) refl

  skip-caret :
      (s : Str)
      → is_whitespace b'^' ≡ false
      → skip_whitespace std (start std (b'^' ∷ s)) ≡ start std (b'^' ∷ s)
  unfolding skip_whitespace span
  skip-caret s w = rw w refl

  skip-end : skip_whitespace std (start std []) ≡ start std []
  unfolding skip_whitespace span
  skip-end = refl

  parse_atom-end : parse_atom std (start std []) ≡ (empty, start std [])
  unfolding parse_atom span
  parse_atom-end = refl

  parse_unary-boost :
      (k : ℕ) (s : Str)
      → all_boost s ≡ true
      → is_whitespace b'^' ≡ false
      → parse_unary std (suc (suc k)) (start std (b'^' ∷ s)) ≡ some (empty, start std [])
  unfolding parse_or boosted
  parse_unary-boost k s h w =
      let skips = skip-caret s w in
      let boost = parse_boost-all_boost s h in
      let ends = skip-end in let atom = parse_atom-end in ground arith

  and_loop-end :
      (k : ℕ)
      → and_loop std (suc k) (cons empty nil) (start std []) ≡ some (cons empty nil, start std [])
  unfolding parse_or
  and_loop-end k = let ends = skip-end in ground arith

  parse_and-boost :
      (k : ℕ) (s : Str)
      → all_boost s ≡ true
      → is_whitespace b'^' ≡ false
      → parse_and std (suc (suc (suc (suc k)))) (start std (b'^' ∷ s)) ≡ some (empty, start std [])
  unfolding parse_or push
  parse_and-boost k s h w =
      let skips = skip-caret s w in
      let unary = parse_unary-boost k s h w in let ends = and_loop-end (suc k) in ground arith

  or_loop-end :
      (k : ℕ)
      → or_loop std (suc k) (cons empty nil) (start std []) ≡ some (cons empty nil, start std [])
  unfolding parse_or
  or_loop-end k = let ends = skip-end in ground arith

  parse_or-boost :
      (k : ℕ) (s : Str)
      → all_boost s ≡ true
      → is_whitespace b'^' ≡ false
      → parse_or std (suc (suc (suc (suc (suc k))))) (start std (b'^' ∷ s))
        ≡ some (empty, start std [])
  unfolding parse_or
  parse_or-boost k s h w =
      let conjunction = parse_and-boost k s h w in
      let ends = or_loop-end (suc (suc (suc k))) in ground arith

  -- A query that is a boost sign and then only digits and dots is read as the empty query, whatever
  -- the number is: the loop over the number ends at the end of the input without going back, so the
  -- term is lost. The boost sign is not white space.
  pub parse_query-boost :
      (s : Str)
      → all_boost s ≡ true
      → is_whitespace b'^' ≡ false
      → parse_query std (b'^' ∷ s) ≡ some nothing
  unfolding parse_query
  parse_query-boost s h w = let run = parse_or-boost (8 * length (b'^' ∷ s)) s h w in ground arith
