-- ===== src/Utils/Runs.antt =====
-- Runs of the tokenizer of src/utils/tokenizer.rs, and its theorems at concrete inputs.
use fxi.Base.{◌^◌, ◌≡◌, ◌<◌, refl, arith, true, [], ◌∷◌, length}
use fxi.Base.Keys.{distinct}
use fxi.Query.Text.{Str, str_eq, codes}
use fxi.Query.Ascii.{ascii}
use fxi.Utils.Tokenizer.{
  classify_char, on_char, extract_tokens_with_positions, extract_tokens_with_positions_simple,
  tokenize_query_with_positions, extract_tokens_and_positions, encode, step_byte, tokens_of_bytes,
  as_bytes,
}
use fxi.Utils.Tokenizer.Agreement.{extract_tokens_with_positions-tokenize_query_with_positions}
use fxi.Utils.Tokenizer.Numbered.{resolve, found_at, extract_tokens_and_positions-resolve}

abbrev some_text : Str
some_text = codes "getUser(a, user)"

tokens_run :
    tokenize_query_with_positions ascii some_text
    ≡ (codes "get", 0) ∷ (codes "user", 1) ∷ (codes "user", 3) ∷ []
unfolding tokenize_query_with_positions extract_tokens_with_positions_simple classify_char on_char
tokens_run = refl

bytes_run : tokens_of_bytes (as_bytes some_text) ≡ tokenize_query_with_positions ascii some_text
unfolding tokens_of_bytes encode step_byte tokenize_query_with_positions
    extract_tokens_with_positions_simple classify_char on_char
bytes_run = refl

extract_tokens_with_positions-tokenize_query_with_positions_example :
    extract_tokens_with_positions ascii some_text ≡ tokenize_query_with_positions ascii some_text
extract_tokens_with_positions-tokenize_query_with_positions_example =
    extract_tokens_with_positions-tokenize_query_with_positions ascii (λ s h. refl) some_text

few_tokens : length (extract_tokens_with_positions ascii some_text) < 2 ^ 32
unfolding extract_tokens_with_positions extract_tokens_with_positions_simple classify_char on_char
    encode tokens_of_bytes step_byte
few_tokens = omega arith

extract_tokens_and_positions-resolve_example :
    (let (tokens, positions) = extract_tokens_and_positions ascii some_text in
      (distinct tokens ≡ true)
      × (resolve tokens positions ≡ found_at (extract_tokens_with_positions ascii some_text)))
extract_tokens_and_positions-resolve_example =
    extract_tokens_and_positions-resolve ascii some_text few_tokens
