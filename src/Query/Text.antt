-- ===== src/Query/Text.antt =====
-- Rust strings as lists of code points, with the operations of the standard library that src/query
-- uses on them.
use Prim.Native.Char.{code}
use Prim.Native.String.{String}
use fxi.Base.{
  ℕ, ◌+◌, ◌-◌, ◌*◌, ◌^◌, Bool, true, false, ◌&&◌, ◌||◌, Option, none, some, List, [], ◌∷◌, ltb, leb,
  ◌==◌, ==_iff, if◌then◌else◌, ◌≡◌, refl, ◌↔◌, arith,
}
use fxi.Base.Keys.{Eq}

abbrev pub Str : Type 0
Str = List ℕ

abbrev pub codes : String → Str
codes String.[] = []
codes (String.◌∷◌ c s) = code c ∷ codes s

-- The tables and the floats of the standard library are not modelled.
pub record Std : Type 1 where
  pub F32 : Type 0
  pub two : F32
  pub parse_f32 : Str → Option F32
  pub is_whitespace : ℕ → Bool
  pub is_alphanumeric : ℕ → Bool
  pub to_lowercase : Str → Str

abbrev pub eq_str : Str → Str → Bool
eq_str [] [] = true
eq_str [] (d ∷ ds) = false
eq_str (c ∷ cs) [] = false
eq_str (c ∷ cs) (d ∷ ds) = c == d && eq_str cs ds

pub eq_str_iff : (s t : Str) → (eq_str s t ≡ true) ↔ (s ≡ t)
eq_str_iff [] [] = (λ h. refl, λ h. refl)
eq_str_iff [] (d ∷ ds) = ground arith
eq_str_iff (c ∷ cs) [] = ground arith
eq_str_iff (c ∷ cs) (d ∷ ds) = let ih = eq_str_iff cs ds in ground (arith, ==_iff c d)

instance abbrev pub str_eq : Eq Str
str_eq = record { beq = eq_str; beq_iff = eq_str_iff }

abbrev pub is_empty : Str → Bool
is_empty [] = true
is_empty (c ∷ cs) = false

-- s.len(): bytes of UTF-8.
abbrev pub len_utf8 : ℕ → ℕ
len_utf8 c = if ltb c 0x80 then 1 else if ltb c 0x800 then 2 else if ltb c 0x10000 then 3 else 4

abbrev pub byte_len : Str → ℕ
byte_len [] = 0
byte_len (c ∷ cs) = len_utf8 c + byte_len cs

-- s.strip_prefix(c) for a character.
abbrev pub strip_char : ℕ → Str → Option Str
strip_char c [] = none
strip_char c (d ∷ s) = if c == d then some s else none

-- s.strip_prefix(p).
abbrev pub strip_prefix : Str → Str → Option Str
strip_prefix [] s = some s
strip_prefix (c ∷ p) [] = none
strip_prefix (c ∷ p) (d ∷ s) = if c == d then strip_prefix p s else none

abbrev pub contains_char : ℕ → Str → Bool
contains_char c [] = false
contains_char c (d ∷ s) = c == d || contains_char c s

-- `while !eof && test(peek) { advance }`: what was passed, and the rest.
unfoldable pub span : (ℕ → Bool) → Str → Str × Str
span test [] = ([], [])
span test (c ∷ s) =
    let (taken, rest) = span test s in if test c then (c ∷ taken, rest) else ([], c ∷ s)

-- The first piece gets one more character.
abbrev pub push_first : ℕ → List Str → List Str
push_first c [] = (c ∷ []) ∷ []
push_first c (w ∷ ws) = (c ∷ w) ∷ ws

-- s.split(c): one piece more than there are separators.
unfoldable pub split : ℕ → Str → List Str
split sep [] = [] ∷ []
split sep (c ∷ s) =
    let pieces = split sep s in if c == sep then [] ∷ pieces else push_first c pieces

abbrev both_first : ℕ → Option (Str × Str) → Option (Str × Str)
both_first c none = none
both_first c (some (a, b)) = some (c ∷ a, b)

-- s.split_once(c)
unfoldable pub split_once : ℕ → Str → Option (Str × Str)
split_once sep [] = none
split_once sep (c ∷ s) =
    let found = split_once sep s in if c == sep then some ([], s) else both_first c found

-- Digits read behind `acc`; `none` on another character or past the largest value.
unfoldable pub parse_digits : (limit : ℕ) → ℕ → Str → Option ℕ
parse_digits limit acc [] = some acc
parse_digits limit acc (c ∷ s) =
    let acc' = acc * 10 + (c - b'0') in
    let more = parse_digits limit acc' s in
    if leb b'0' c && leb c b'9' then if leb acc' limit then more else none else none

-- s.parse() into an unsigned integer up to `limit`: digits, with a plus sign allowed in front.
unfoldable pub parse_uint : (limit : ℕ) → Str → Option ℕ
unfolding parse_digits
parse_uint limit [] = none
parse_uint limit (c ∷ []) = parse_digits limit 0 (c ∷ [])
parse_uint limit (c ∷ d ∷ s) =
    if c == b'+' then parse_digits limit 0 (d ∷ s) else parse_digits limit 0 (c ∷ d ∷ s)

abbrev pub u32_max : ℕ
u32_max = 2 ^ 32 - 1

abbrev pub u64_max : ℕ
u64_max = 2 ^ 64 - 1

module _ (std : Std) where
  abbrev trim_start : Str → Str
  trim_start [] = []
  trim_start (c ∷ s) = let rest = trim_start s in if std.is_whitespace c then rest else c ∷ s

  abbrev cons_end : ℕ → Str → Str
  cons_end c [] = if std.is_whitespace c then [] else c ∷ []
  cons_end c (d ∷ s) = c ∷ d ∷ s

  abbrev trim_end : Str → Str
  trim_end [] = []
  trim_end (c ∷ s) = cons_end c (trim_end s)

  unfoldable pub trim : Str → Str
  trim s = trim_end (trim_start s)
