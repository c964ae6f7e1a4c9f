-- ===== src/Query/Ascii.antt =====
-- The standard library's tables restricted to ASCII, and whole numbers for the floats.
use fxi.Base.{ℕ, ◌+◌, Bool, ◌&&◌, ◌||◌, map, leb, ◌==◌, if◌then◌else◌}
use fxi.Query.Text.{Std, parse_uint, u32_max}

abbrev pub is_space : ℕ → Bool
is_space c = c == b' ' || leb 9 c && leb c 13

abbrev pub is_alnum : ℕ → Bool
is_alnum c = leb b'0' c && leb c b'9' || (leb b'A' c && leb c b'Z' || leb b'a' c && leb c b'z')

abbrev pub lower : ℕ → ℕ
lower c = if leb b'A' c && leb c b'Z' then c + 32 else c

abbrev pub ascii : Std
ascii = record {
  F32 = ℕ;
  two = 2;
  parse_f32 = parse_uint u32_max;
  is_whitespace = is_space;
  is_alphanumeric = is_alnum;
  to_lowercase = map lower;
}
