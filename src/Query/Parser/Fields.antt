-- ===== src/Query/Parser/Fields.antt =====
-- src/query/parser.rs, parse_field and the parsers of its values. What stands before the colon and
-- the value are texts already cut out of the input.
use fxi.Base.{
  ℕ, ◌+◌, ◌%◌, ◌^◌, ◌&&◌, Option, none, some, List, [], ◌∷◌, ◌++◌, leb, if◌then◌else◌, ◌>>=◌,
}
use fxi.Query.Text.{
  Str, Std, codes, eq_str, is_empty, strip_char, contains_char, byte_len, split, split_once,
  parse_uint, u32_max, u64_max, trim,
}
use fxi.Query.Syntax.{
  QueryNode, literal, near, empty, QueryFilters, QueryOptions, SortOrder, score, recency, by_path,
}
use fxi.Query.Parser.Date.{parse_date, parse_timestamp}

-- What parse_field returns and changes.
pub record Outcome (F : Type 0) : Type 0 where
  pub node : QueryNode F
  pub filters : QueryFilters
  pub options : QueryOptions

-- `if let Some(rest) = value.strip_prefix(c) && let Ok(n) = rest.parse()`
abbrev number_behind : ℕ → Str → Option ℕ
number_behind c value = do rest ← strip_char c value; parse_uint u64_max rest

unfoldable pub parse_size_filter : Str → QueryFilters → QueryFilters
parse_size_filter value filters = elim (number_behind b'>' value) [
  | some n ↦ record filters { size_min = some n }
  | none ↦ elim (number_behind b'<' value) [
    | some n ↦ record filters { size_max = some n }
    | none ↦ filters
  ]
]

unfoldable pub parse_line_filter : Str → QueryFilters → QueryFilters
parse_line_filter value filters = elim (split_once b'-' value) [
  | some (start, end) ↦ record filters {
    line_start = parse_uint u32_max start;
    line_end = parse_uint u32_max end;
  }
  | none ↦ elim (parse_uint u32_max value) [
    | some n ↦ record filters { line_start = some n; line_end = some n }
    | none ↦ filters
  ]
]

-- One day from `ts` on; u64 addition wraps in a release build.
abbrev one_day : ℕ → QueryFilters → QueryFilters
one_day ts filters = record filters {
  mtime_min = some ts;
  mtime_max = some ((ts + 86400) % 2 ^ 64);
}

abbrev one_day? : Option ℕ → QueryFilters → QueryFilters
one_day? none filters = filters
one_day? (some ts) filters = one_day ts filters

unfoldable pub parse_mtime_filter : Str → QueryFilters → QueryFilters
parse_mtime_filter value filters = elim (strip_char b'>' value) [
  | some rest ↦ record filters { mtime_min = parse_timestamp rest }
  | none ↦ elim (strip_char b'<' value) [
    | some rest ↦ record filters { mtime_max = parse_timestamp rest }
    | none ↦
        if contains_char b'-' value && leb 10 (byte_len value)
        then one_day? (parse_date value) filters
        else one_day? (parse_uint u64_max value) filters
  ]
]

module _ (std : Std) where
  open std use {F32, to_lowercase}

  unfoldable pub parse_sort : Str → SortOrder
  parse_sort value =
      let v = to_lowercase value in
      if eq_str v (codes "recency")
      then recency
      else if eq_str v (codes "recent")
      then recency
      else if eq_str v (codes "mtime")
      then recency
      else if eq_str v (codes "path")
      then by_path
      else if eq_str v (codes "name")
      then by_path
      else score

  -- .map(trim).filter(not empty)
  unfoldable pub trimmed_terms : List Str → List Str
  trimmed_terms [] = []
  trimmed_terms (s ∷ rest) =
      let terms = trimmed_terms rest in if is_empty (trim std s) then terms else trim std s ∷ terms

  abbrev last_of : Str → List Str → Str
  last_of s [] = s
  last_of s (t ∷ ts) = last_of t ts

  abbrev all_but_last : Str → List Str → List Str
  all_but_last s [] = []
  all_but_last s (t ∷ ts) = s ∷ all_but_last t ts

  abbrev near_of : List Str → ℕ → QueryNode F32
  near_of [] distance = empty
  near_of (t ∷ []) distance = literal t
  near_of (t ∷ u ∷ ts) distance = near (t ∷ u ∷ ts) distance

  -- The pieces between commas, at least two; a number at the end is the distance.
  unfoldable pub near_of_parts : List Str → QueryNode F32
  unfolding trimmed_terms
  near_of_parts (s ∷ t ∷ ts) = elim (parse_uint u32_max (trim std (last_of t ts))) [
    | some d ↦ near_of (trimmed_terms (s ∷ all_but_last t ts)) d
    | none ↦ near_of (trimmed_terms (s ∷ t ∷ ts)) 10
  ]
  near_of_parts parts = empty

  unfoldable pub parse_near_query : Str → QueryNode F32
  unfolding near_of_parts
  parse_near_query value = near_of_parts (split b',' value)

  -- `top:`: usize is a u64.
  abbrev with_limit : Str → QueryOptions → QueryOptions
  with_limit value options = elim (parse_uint u64_max value) [
    | some n ↦ record options { limit = n }
    | none ↦ options
  ]

  unfoldable pub parse_field : Str → Str → QueryFilters → QueryOptions → Outcome F32
  unfolding parse_near_query parse_sort parse_size_filter parse_line_filter parse_mtime_filter
  parse_field field value filters options =
      let f = to_lowercase field in
      let filtered = λ (g : QueryFilters).
        let o : Outcome F32 = record { node = empty; filters = g; options = options } in o in
      let plain = λ (n : QueryNode F32).
        let o : Outcome F32 = record { node = n; filters = filters; options = options } in o in
      let optioned = λ (g : QueryOptions).
        let o : Outcome F32 = record { node = empty; filters = filters; options = g } in o in
      if eq_str f (codes "path")
      then filtered (record filters { path = some value })
      else if eq_str f (codes "file")
      then filtered (record filters { filename = some value })
      else if eq_str f (codes "name")
      then filtered (record filters { filename = some value })
      else if eq_str f (codes "ext")
      then filtered (record filters { ext = some value })
      else if eq_str f (codes "lang")
      then filtered (record filters { lang = some value })
      else if eq_str f (codes "size")
      then filtered (parse_size_filter value filters)
      else if eq_str f (codes "line")
      then filtered (parse_line_filter value filters)
      else if eq_str f (codes "mtime")
      then filtered (parse_mtime_filter value filters)
      else if eq_str f (codes "near")
      then plain (parse_near_query value)
      else if eq_str f (codes "sort")
      then optioned (record options { sort = parse_sort value })
      else if eq_str f (codes "top")
      then optioned (with_limit value options)
      else plain (literal (field ++ (b':' ∷ value)))
