-- ===== src/Utils/Tokenizer/Numbered.antt =====
-- The numbers that the positions carry in place of the tokens.
use fxi.Base.{
  ℕ, ◌+◌, ◌^◌, ◌≡◌, ◌≤◌, ◌<◌, refl, sym, ap, arith, true, Option, none, some, List, [], ◌∷◌, ◌++◌,
  length, length-append, get_elem?, get_elem?-append, get_elem?-append_last, append_assoc,
  append-nil,
}
use fxi.Base.Keys.{Eq, distinct, find}
use fxi.Base.Numbers.{Numbers, push-Numbers}
use fxi.Query.Text.{Str, Std, str_eq}
use fxi.Utils.Tokenizer.{
  Numbering, number_token, number_tokens, extract_tokens_and_positions,
  extract_tokens_with_positions, u32,
}

module _ {T : Type 0} where
  -- Each position with the token that its number stands for.
  abbrev pub resolve : List T → List (ℕ × ℕ) → List (Option T × ℕ)
  resolve tokens [] = []
  resolve tokens ((id, pos) ∷ rest) = (get_elem? tokens id, pos) ∷ resolve tokens rest

  abbrev pub found_at : List (T × ℕ) → List (Option T × ℕ)
  found_at [] = []
  found_at ((t, pos) ∷ rest) = (some t, pos) ∷ found_at rest

  resolve-append :
      (tokens : List T) (ps qs : List (ℕ × ℕ))
      → resolve tokens (ps ++ qs) ≡ resolve tokens ps ++ resolve tokens qs
  resolve-append tokens [] qs = refl
  resolve-append tokens ((id, pos) ∷ ps) qs =
      ap (λ rs. (get_elem? tokens id, pos) ∷ rs) (resolve-append tokens ps qs)

  found_at-append : (xs ys : List (T × ℕ)) → found_at (xs ++ ys) ≡ found_at xs ++ found_at ys
  found_at-append [] ys = refl
  found_at-append ((t, pos) ∷ xs) ys = ap (λ rs. (some t, pos) ∷ rs) (found_at-append xs ys)

  -- More tokens at the end change nothing for positions that have been resolved.
  resolve-more :
      (tokens more : List T) (ps : List (ℕ × ℕ)) (xs : List (T × ℕ))
      → resolve tokens ps ≡ found_at xs
      → resolve (tokens ++ more) ps ≡ found_at xs
  resolve-more tokens more [] xs h = h
  resolve-more tokens more ((id, pos) ∷ ps) [] h = absurd (ground arith)
  resolve-more tokens more ((id, pos) ∷ ps) ((t, at) ∷ xs) h =
      let here : get_elem? tokens id ≡ some t = ground arith in
      let same : pos ≡ at = ground arith in
      let there : resolve tokens ps ≡ found_at xs = ground arith in
      rw (get_elem?-append tokens more id here, same, resolve-more tokens more ps xs there) refl

module _ {T : Type 0} ⦃e : Eq T⦄ where
  -- After the tokens xs: the numbers are places, and the positions resolve to xs.
  record IsNumbering (xs : List (T × ℕ)) (n : Numbering T) : Type 0 where
    numbers : Numbers n.ids n.tokens
    resolved : resolve n.tokens n.positions ≡ found_at xs
    short : length n.tokens ≤ length xs

  number_token-IsNumbering :
      (t : T) (pos : ℕ) (xs : List (T × ℕ)) (n : Numbering T) (found : Option ℕ)
      → IsNumbering xs n
      → find t n.ids ≡ found
      → length xs < 2 ^ 32
      → IsNumbering (xs ++ ((t, pos) ∷ [])) (number_token found t pos n)
  number_token-IsNumbering t pos xs n (some id) h is small = record {
    numbers = h.numbers;
    resolved =
        rw
          (
            resolve-append n.tokens n.positions ((id, pos) ∷ []),
            found_at-append xs ((t, pos) ∷ []),
            h.resolved,
            h.numbers.known t id is,
          )
          refl;
    short = omega (arith, h.short, length-append xs ((t, pos) ∷ []));
  }
  number_token-IsNumbering t pos xs n none h is small =
      let fits : u32 (length n.tokens) ≡ length n.tokens = omega (arith, h.short) in
      let before = resolve-more n.tokens (t ∷ []) n.positions xs h.resolved in
      rw fits (record {
        numbers = push-Numbers n.ids n.tokens t h.numbers is;
        resolved =
            rw
              (
                resolve-append (n.tokens ++ (t ∷ [])) n.positions ((length n.tokens, pos) ∷ []),
                found_at-append xs ((t, pos) ∷ []),
                before,
                get_elem?-append_last n.tokens t,
              )
              refl;
        short =
            omega
              (arith, h.short, length-append xs ((t, pos) ∷ []), length-append n.tokens (t ∷ []));
      })

  number_tokens-IsNumbering :
      (rest xs : List (T × ℕ)) (n : Numbering T)
      → IsNumbering xs n
      → length xs + length rest < 2 ^ 32
      → IsNumbering (xs ++ rest) (number_tokens rest n)
  number_tokens-IsNumbering [] xs n h small = rw (append-nil xs) h
  number_tokens-IsNumbering ((t, pos) ∷ rest) xs n h small =
      let next = number_token-IsNumbering t pos xs n (find t n.ids) h refl (omega arith) in
      let all =
        number_tokens-IsNumbering rest (xs ++ ((t, pos) ∷ [])) (number_token (find t n.ids) t pos n)
          next (omega (arith, length-append xs ((t, pos) ∷ []))) in
      rw (sym (append_assoc xs ((t, pos) ∷ []) rest)) all

-- For a text of fewer than 2^32 tokens extract_tokens_and_positions lists no token twice, and its
-- positions, each number read as the token in that place of the list, are the tokens and positions
-- of extract_tokens_with_positions.
pub extract_tokens_and_positions-resolve :
    (std : Std) (text : Str)
    → length (extract_tokens_with_positions std text) < 2 ^ 32
    → (let (tokens, positions) = extract_tokens_and_positions std text in
        (distinct tokens ≡ true)
        × (resolve tokens positions ≡ found_at (extract_tokens_with_positions std text)))
unfolding extract_tokens_and_positions
extract_tokens_and_positions-resolve std text small =
    let none_yet : IsNumbering {T = Str} [] (record { ids = []; tokens = []; positions = [] }) =
      record {
        numbers = record {
          known = λ k i h. absurd (ground arith);
          unknown = λ k h. refl;
          unique = refl;
        };
        resolved = refl;
        short = omega arith;
      } in
    let all =
      number_tokens-IsNumbering (extract_tokens_with_positions std text) []
        (record { ids = []; tokens = []; positions = [] }) none_yet (omega arith) in
    (all.numbers.unique, all.resolved)
