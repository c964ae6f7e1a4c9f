-- ===== src/Utils/Tokenizer/Scans.antt =====
-- The loop over bytes with the bytes of the current token in place of the token's start.
use fxi.Base.{
  ℕ, ◌+◌, ◌-◌, ◌≡◌, refl, sym, ◌∙◌, ap, arith, Bool, false, ◌&&◌, ◌||◌, Option, none, some, List,
  [], ◌∷◌, ◌++◌, append-nil, append_assoc, drop-append, length, length-append, if◌then◌else◌,
  Bool-cases, inl, inr,
}
use fxi.Utils.Tokenizer.{
  Tokens, ByteScan, u32, take, slice_of, push_slice, flush_bytes, step_byte, scan_bytes, last_slice,
  or_start, tokens_of_bytes, is_ascii_lowercase, is_ascii_uppercase, is_ascii_digit,
}

pub record SliceScan : Type 0 where
  pub slice : List ℕ
  pub prev_was_lower : Bool
  pub word_pos : ℕ
  pub result : Tokens

abbrev pub flush_slice : SliceScan → List ℕ → SliceScan
flush_slice s [] = s
flush_slice s (b ∷ bs) = record s {
  result = push_slice (b ∷ bs) s.word_pos s.result;
  word_pos = u32 (s.word_pos + 1);
}

unfoldable pub step_slice : ℕ → SliceScan → SliceScan
step_slice byte s =
    let flushed = flush_slice s s.slice in
    if is_ascii_lowercase byte || (is_ascii_uppercase byte || is_ascii_digit byte)
    then if is_ascii_uppercase byte && s.prev_was_lower
      then record flushed { slice = byte ∷ []; prev_was_lower = is_ascii_lowercase byte }
      else record s { slice = s.slice ++ (byte ∷ []); prev_was_lower = is_ascii_lowercase byte }
    else record flushed { slice = []; prev_was_lower = false }

abbrev pub scan_slices : List ℕ → SliceScan → SliceScan
scan_slices [] s = s
scan_slices (b ∷ rest) s = scan_slices rest (step_slice b s)

abbrev pub finish : SliceScan → List ℕ → Tokens
finish s [] = s.result
finish s (b ∷ bs) = push_slice (b ∷ bs) s.word_pos s.result

abbrev start_of : ℕ → List ℕ → Option ℕ
start_of start [] = none
start_of start (b ∷ bs) = some start

-- The loop's state when a token's bytes begin at a place.
abbrev at_start : ℕ → SliceScan → ByteScan
at_start start s = record {
  token_start = start_of start s.slice;
  prev_was_lower = s.prev_was_lower;
  word_pos = s.word_pos;
  result = s.result;
}

take-append : {A : Type 0} (xs ys : List A) → take (length xs) (xs ++ ys) ≡ xs
take-append [] ys = refl
take-append (x ∷ xs) ys = ap (λ zs. x ∷ zs) (take-append xs ys)

slice_of-append :
    (front slice rest : List ℕ)
    → slice_of (front ++ (slice ++ rest)) (length front) (length front + length slice) ≡ slice
slice_of-append front slice rest =
    let size : length front + length slice - length front ≡ length slice = omega arith in
    rw (drop-append front (slice ++ rest), size) (take-append slice rest)

flush_bytes-at_start :
    (front rest slice : List ℕ) (s : SliceScan)
    → flush_bytes
        (front ++ (slice ++ rest))
        (length front + length slice)
        (start_of (length front) slice)
        (at_start (length front) s)
      ≡ (let t = flush_slice s slice in
          record {
            token_start = start_of (length front) s.slice;
            prev_was_lower = s.prev_was_lower;
            word_pos = t.word_pos;
            result = t.result;
          })
flush_bytes-at_start front rest [] s = refl
flush_bytes-at_start front rest (b ∷ bs) s = rw (slice_of-append front (b ∷ bs) rest) refl

start_of-push :
    (n : ℕ) (bs : List ℕ) (b : ℕ)
    → some (or_start (start_of n bs) (n + length bs)) ≡ start_of n (bs ++ (b ∷ []))
start_of-push n [] b = ap some (omega arith)
start_of-push n (c ∷ bs) b = refl

-- One byte: the state after it, with what is in front of the token it leaves.
step_byte-at_start :
    (front rest : List ℕ) (b : ℕ) (s : SliceScan)
    → (front' : List ℕ) × (front' ++ (step_slice b s).slice ≡ (front ++ s.slice) ++ (b ∷ []))
      × (step_byte
            (front ++ (s.slice ++ (b ∷ rest)))
            (length front + length s.slice)
            b
            (at_start (length front) s)
          ≡ at_start (length front') (step_slice b s))
unfolding step_byte step_slice
step_byte-at_start front rest b s =
    let flush = flush_bytes-at_start front (b ∷ rest) s.slice s in
    let is_lower = is_ascii_lowercase b in
    let is_upper = is_ascii_uppercase b in
    elim (Bool-cases (is_lower || (is_upper || is_ascii_digit b))) [
      | inl word ↦ elim (Bool-cases (is_upper && s.prev_was_lower)) [
        | inl split ↦ (
          front ++ s.slice,
          rw (word, split) refl,
          rw (word, split, flush, length-append front s.slice) refl,
        )
        | inr same ↦ (
          front,
          rw (word, same) (sym (append_assoc front s.slice (b ∷ []))),
          rw (word, same) (rw (start_of-push (length front) s.slice b) refl),
        )
      ]
      | inr stop ↦ (
        (front ++ s.slice) ++ (b ∷ []),
        rw stop (append-nil ((front ++ s.slice) ++ (b ∷ []))),
        rw (stop, flush) refl,
      )
    ]

finish-last_slice :
    (front : List ℕ) (s : SliceScan)
    → last_slice (front ++ s.slice) (start_of (length front) s.slice) (at_start (length front) s)
      ≡ finish s s.slice
finish-last_slice front s = go s.slice
  where
    go :
        (slice : List ℕ)
        → last_slice (front ++ slice) (start_of (length front) slice) (at_start (length front) s)
          ≡ finish s slice
    go [] = refl
    go (b ∷ bs) = rw (drop-append front (b ∷ bs)) refl

-- The rest of the loop and what follows it.
run : List ℕ → ℕ → List ℕ → ByteScan → Tokens
run bytes i rest s = let done = scan_bytes bytes i rest s in last_slice bytes done.token_start done

run-scan_slices :
    (rest front : List ℕ) (s : SliceScan)
    → run
        (front ++ (s.slice ++ rest))
        (length front + length s.slice)
        rest
        (at_start (length front) s)
      ≡ finish (scan_slices rest s) (scan_slices rest s).slice
unfolding run
run-scan_slices [] front s = rw (append-nil s.slice) (finish-last_slice front s)
run-scan_slices (b ∷ rest) front s =
    let (front', shape, step) = step_byte-at_start front rest b s in
    let t = step_slice b s in
    let bytes = front ++ (s.slice ++ (b ∷ rest)) in
    let same_bytes : bytes ≡ front' ++ (t.slice ++ rest) = sym (
      sym (append_assoc front' t.slice rest)
      ∙ ap (λ bs. bs ++ rest) shape
      ∙ append_assoc (front ++ s.slice) (b ∷ []) rest
      ∙ append_assoc front s.slice (b ∷ rest)) in
    let same_index : length front + length s.slice + 1 ≡ length front' + length t.slice = omega (
      arith,
      ap length shape,
      length-append front' t.slice,
      length-append (front ++ s.slice) (b ∷ []),
      length-append front s.slice,
    ) in
    ap (run bytes (length front + length s.slice + 1) rest) step
    ∙ ap (λ bs. run bs (length front + length s.slice + 1) rest (at_start (length front') t))
        same_bytes
    ∙ ap (λ i. run (front' ++ (t.slice ++ rest)) i rest (at_start (length front') t)) same_index
    ∙ run-scan_slices rest front' t

-- The loop over bytes finds the tokens that the loop on slices finds.
pub tokens_of_bytes-scan_slices :
    (bytes : List ℕ)
    → (let s =
          scan_slices bytes
            (record { slice = []; prev_was_lower = false; word_pos = 0; result = [] }) in
        tokens_of_bytes bytes ≡ finish s s.slice)
unfolding tokens_of_bytes run
tokens_of_bytes-scan_slices bytes =
    run-scan_slices bytes []
      (record { slice = []; prev_was_lower = false; word_pos = 0; result = [] })
