-- ===== src/Utils/Tokenizer/Bytes.antt =====
-- What the bytes of a character do to the loop over bytes, and ASCII letters in lower case.
use fxi.Base.{
  ℕ, ◌+◌, ◌/◌, ◌%◌, ◌≡◌, ◌≤◌, refl, ◌∙◌, ap, arith, Bool, true, false, ◌&&◌, ◌||◌, List, [], ◌∷◌,
  ◌++◌, map, length, ltb, leb, Bool-cases, inl, inr,
}
use fxi.Query.Text.{byte_len}
use fxi.Utils.Tokenizer.{
  other, encode, all_ascii, to_ascii_lowercase, is_ascii_lowercase, is_ascii_uppercase,
  is_ascii_digit, classify_char,
}
use fxi.Utils.Tokenizer.Scans.{SliceScan, flush_slice, step_slice, scan_slices}

pub and_true : (b : Bool) → (b && true) ≡ b
and_true true = refl
and_true false = refl

pub lower_twice : (b : ℕ) → to_ascii_lowercase (to_ascii_lowercase b) ≡ to_ascii_lowercase b
lower_twice b = ground arith

pub map-lower_twice :
    (bs : List ℕ) → map to_ascii_lowercase (map to_ascii_lowercase bs) ≡ map to_ascii_lowercase bs
map-lower_twice [] = refl
map-lower_twice (b ∷ bs) = rw (lower_twice b, map-lower_twice bs) refl

pub all_ascii-lower :
    (bs : List ℕ) → all_ascii bs ≡ true → all_ascii (map to_ascii_lowercase bs) ≡ true
all_ascii-lower [] h = refl
all_ascii-lower (b ∷ bs) h = ground (arith, all_ascii-lower bs)

pub byte_len-lower :
    (bs : List ℕ) → all_ascii bs ≡ true → byte_len (map to_ascii_lowercase bs) ≡ length bs
byte_len-lower [] h = refl
byte_len-lower (b ∷ bs) h = ground (arith, byte_len-lower bs)

pub all_ascii-append : (bs cs : List ℕ) → all_ascii (bs ++ cs) ≡ (all_ascii bs && all_ascii cs)
all_ascii-append [] cs = refl
all_ascii-append (b ∷ bs) cs = let ih = all_ascii-append bs cs in ground arith

pub map-append : (f : ℕ → ℕ) (bs cs : List ℕ) → map f (bs ++ cs) ≡ map f bs ++ map f cs
map-append f [] cs = refl
map-append f (b ∷ bs) cs = ap (λ xs. f b ∷ xs) (map-append f bs cs)

pub scan_slices-append :
    (bs cs : List ℕ) (s : SliceScan) → scan_slices (bs ++ cs) s ≡ scan_slices cs (scan_slices bs s)
scan_slices-append [] cs s = refl
scan_slices-append (b ∷ bs) cs s = scan_slices-append bs cs (step_slice b s)

-- A byte that stands in no token ends the token.
abbrev pub stop : SliceScan → SliceScan
stop s = record (flush_slice s s.slice) { slice = []; prev_was_lower = false }

pub step_slice-stop :
    (b : ℕ) (s : SliceScan)
    → (is_ascii_lowercase b || (is_ascii_uppercase b || is_ascii_digit b)) ≡ false
    → step_slice b s ≡ stop s
unfolding step_slice
step_slice-stop b s h = rw h refl

abbrev pub is_word : ℕ → Bool
is_word b = is_ascii_lowercase b || (is_ascii_uppercase b || is_ascii_digit b)

pub high_not_word : (b : ℕ) → 128 ≤ b → is_word b ≡ false
high_not_word b h = ground arith

abbrev pub all_high : List ℕ → Bool
all_high [] = true
all_high (b ∷ bs) = leb 128 b && all_high bs

pub high_stops :
    (b : ℕ) (bs : List ℕ) (s : SliceScan)
    → all_high (b ∷ bs) ≡ true
    → scan_slices (b ∷ bs) s ≡ stop s
high_stops b [] s h = step_slice-stop b s (high_not_word b (ground arith))
high_stops b (d ∷ bs) s h =
    ap (scan_slices (d ∷ bs)) (step_slice-stop b s (high_not_word b (ground arith)))
    ∙ high_stops d bs (stop s) (ground arith)

-- The bytes of a character that is not ASCII end the token.
pub encode_stops :
    (ch : ℕ) (s : SliceScan) → ltb ch 128 ≡ false → scan_slices (encode ch) s ≡ stop s
unfolding encode
encode_stops ch s h =
    let second = 0x80 + ch % 64 in
    let third = 0x80 + ch / 64 % 64 in
    let fourth = 0x80 + ch / 4096 % 64 in
    rw h (elim (Bool-cases (ltb ch 0x800)) [
      | inl two ↦ rw two (high_stops (0xc0 + ch / 64) (second ∷ []) s (ground arith))
      | inr more ↦ rw more (elim (Bool-cases (ltb ch 0x10000)) [
        | inl three ↦
            rw three (high_stops (0xe0 + ch / 4096) (third ∷ second ∷ []) s (ground arith))
        | inr four ↦
            rw four
              (high_stops (0xf0 + ch / 262144) (fourth ∷ third ∷ second ∷ []) s (ground arith))
      ])
    ])

pub encode_ascii : (ch : ℕ) → ltb ch 128 ≡ true → encode ch ≡ ch ∷ []
unfolding encode
encode_ascii ch h = rw h refl

pub classify-wide : (ch : ℕ) → ltb ch 128 ≡ false → classify_char ch ≡ other
unfolding classify_char
classify-wide ch h = ground arith
