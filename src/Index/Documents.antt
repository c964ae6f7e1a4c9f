-- ===== src/Index/Documents.antt =====
-- src/index/types.rs: documents, their flags and languages; and docs.bin, which write_documents_atomic
-- of src/index/writer.rs writes and read_documents of src/index/reader.rs reads.
pub mod Stored
use fxi.Base.{
  ℕ, zero, suc, ◌+◌, ◌*◌, ◌/◌, ◌%◌, bit_and, bit_or, Bool, true, false, not, ◌&&◌, Option, none,
  some, List, [], ◌∷◌, ◌++◌, length, get_elem?, ◌==◌, ◌>>=◌, ◌^◌,
}

pub data Language : Type 0 where
  unknown rust python java_script type_script go c cpp java ruby shell markdown json yaml toml :
      Language
  html css sql haskell scala kotlin swift php c_sharp elixir clojure lua perl r zig nim ocaml :
      Language

-- as u16
abbrev pub code : Language → ℕ
code Language.unknown = 0
code Language.rust = 1
code Language.python = 2
code Language.java_script = 3
code Language.type_script = 4
code Language.go = 5
code Language.c = 6
code Language.cpp = 7
code Language.java = 8
code Language.ruby = 9
code Language.shell = 10
code Language.markdown = 11
code Language.json = 12
code Language.yaml = 13
code Language.toml = 14
code Language.html = 15
code Language.css = 16
code Language.sql = 17
code Language.haskell = 18
code Language.scala = 19
code Language.kotlin = 20
code Language.swift = 21
code Language.php = 22
code Language.c_sharp = 23
code Language.elixir = 24
code Language.clojure = 25
code Language.lua = 26
code Language.perl = 27
code Language.r = 28
code Language.zig = 29
code Language.nim = 30
code Language.ocaml = 31

abbrev languages : List Language
languages =
    Language.unknown ∷ Language.rust ∷ Language.python ∷ Language.java_script ∷ Language.type_script
    ∷ Language.go ∷ Language.c ∷ Language.cpp ∷ Language.java ∷ Language.ruby ∷ Language.shell
    ∷ Language.markdown ∷ Language.json ∷ Language.yaml ∷ Language.toml ∷ Language.html
    ∷ Language.css ∷ Language.sql ∷ Language.haskell ∷ Language.scala ∷ Language.kotlin
    ∷ Language.swift ∷ Language.php ∷ Language.c_sharp ∷ Language.elixir ∷ Language.clojure
    ∷ Language.lua ∷ Language.perl ∷ Language.r ∷ Language.zig ∷ Language.nim ∷ Language.ocaml ∷ []

unfoldable pub try_from : ℕ → Option Language
try_from value = get_elem? languages value

-- unwrap_or(Language::Unknown)
abbrev pub or_unknown : Option Language → Language
or_unknown none = Language.unknown
or_unknown (some l) = l

abbrev pub stale : ℕ
stale = 16

abbrev pub tombstone : ℕ
tombstone = 32

unfoldable pub has_flag : ℕ → ℕ → Bool
has_flag flags flag = not (bit_and flags flag == 0)

unfoldable pub set_tombstone : ℕ → ℕ
set_tombstone flags = bit_or flags tombstone

pub record Document : Type 0 where
  pub doc_id : ℕ
  pub path_id : ℕ
  pub size : ℕ
  pub mtime : ℕ
  pub language : Language
  pub flags : ℕ
  pub segment_id : ℕ

unfoldable pub is_valid : Document → Bool
unfolding has_flag
is_valid d = not (has_flag d.flags stale) && not (has_flag d.flags tombstone)

-- to_le_bytes of a number of `n` bytes.
unfoldable pub to_le : ℕ → ℕ → List ℕ
to_le zero v = []
to_le (suc n) v = v % 256 ∷ to_le n (v / 256)

-- read_exact of `n` bytes and from_le_bytes, on the bytes that are left.
unfoldable pub read_le : ℕ → List ℕ → Option (ℕ × List ℕ)
read_le zero bytes = some (0, bytes)
read_le (suc n) [] = none
read_le (suc n) (b ∷ bytes) = do (high, rest) ← read_le n bytes; some (b + 256 * high, rest)

unfoldable pub write_document : Document → List ℕ
write_document d =
    to_le 4 d.doc_id
    ++ (to_le 4 d.path_id
        ++ (to_le 8 d.size
            ++ (to_le 8 d.mtime
                ++ (to_le 2 (code d.language) ++ (to_le 2 d.flags ++ to_le 2 d.segment_id)))))

unfoldable pub write_each : List Document → List ℕ
write_each [] = []
write_each (d ∷ ds) = write_document d ++ write_each ds

unfoldable pub write_documents : List Document → List ℕ
write_documents ds = to_le 4 (length ds % 2 ^ 32) ++ write_each ds

unfoldable pub read_document : List ℕ → Option (Document × List ℕ)
read_document bytes = do
  (doc_id, b₁) ← read_le 4 bytes
  (path_id, b₂) ← read_le 4 b₁
  (size, b₃) ← read_le 8 b₂
  (mtime, b₄) ← read_le 8 b₃
  (language, b₅) ← read_le 2 b₄
  (flags, b₆) ← read_le 2 b₅
  (segment_id, b₇) ← read_le 2 b₆
  some (
    record {
      doc_id = doc_id;
      path_id = path_id;
      size = size;
      mtime = mtime;
      language = or_unknown (try_from language);
      flags = flags;
      segment_id = segment_id;
    },
    b₇,
  )

unfoldable pub read_each : (count : ℕ) → List ℕ → Option (List Document × List ℕ)
read_each zero bytes = some ([], bytes)
read_each (suc n) bytes = do
  (d, rest) ← read_document bytes
  (ds, end) ← read_each n rest
  some (d ∷ ds, end)

-- What stands behind the last document is not read.
unfoldable pub read_documents : List ℕ → Option (List Document)
read_documents bytes = do (count, rest) ← read_le 4 bytes; (ds, end) ← read_each count rest; some ds
