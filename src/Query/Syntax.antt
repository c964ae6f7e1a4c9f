-- ===== src/Query/Syntax.antt =====
-- src/query/parser.rs: the parsed query. `F` is the type of f32.
use fxi.Base.{ℕ, Bool, false, Option, none, List}
use fxi.Query.Text.{Str}

mutual
  pub data QueryNode (F : Type 0) : Type 0 where
    literal : Str → QueryNode F
    boosted_literal : Str → F → QueryNode F
    phrase : Str → QueryNode F
    regex : Str → QueryNode F
    near : List Str → ℕ → QueryNode F
    and_node : Nodes F → QueryNode F
    or_node : Nodes F → QueryNode F
    not_node : QueryNode F → QueryNode F
    empty : QueryNode F

  -- Vec<QueryNode>
  pub data Nodes (F : Type 0) : Type 0 where
    nil : Nodes F
    cons : QueryNode F → Nodes F → Nodes F

-- nodes.push(node)
unfoldable pub push : {F : Type 0} → Nodes F → QueryNode F → Nodes F
push nil node = cons node nil
push (cons n ns) node = cons n (push ns node)

pub record QueryFilters : Type 0 where
  pub path : Option Str
  pub filename : Option Str
  pub ext : Option Str
  pub lang : Option Str
  pub size_min : Option ℕ
  pub size_max : Option ℕ
  pub line_start : Option ℕ
  pub line_end : Option ℕ
  pub mtime_min : Option ℕ
  pub mtime_max : Option ℕ

abbrev pub no_filters : QueryFilters
no_filters = record {
  path = none;
  filename = none;
  ext = none;
  lang = none;
  size_min = none;
  size_max = none;
  line_start = none;
  line_end = none;
  mtime_min = none;
  mtime_max = none;
}

pub data SortOrder : Type 0 where
  score recency by_path : SortOrder

pub record QueryOptions : Type 0 where
  pub sort : SortOrder
  pub limit : ℕ
  pub case_insensitive : Bool

abbrev pub default_options : QueryOptions
default_options = record { sort = score; limit = 100; case_insensitive = false }

pub record Query (F : Type 0) : Type 0 where
  pub root : QueryNode F
  pub filters : QueryFilters
  pub options : QueryOptions
