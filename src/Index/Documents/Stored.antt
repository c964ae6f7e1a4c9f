-- ===== src/Index/Documents/Stored.antt =====
-- docs.bin holds what was written to it.
use fxi.Base.{
  ℕ, zero, suc, ◌+◌, ◌*◌, ◌/◌, ◌%◌, ◌^◌, ◌<◌, ◌≡◌, refl, arith, some, List, [], ◌∷◌, ◌++◌, length,
  All, append_assoc, append-nil,
}
use native.Mathlib.Nat.{pow-suc}
use fxi.Index.Documents.{
  Language, code, try_from, or_unknown, Document, to_le, read_le, write_document, write_each,
  write_documents, read_document, read_each, read_documents,
}

-- A document whose fields fit their widths.
pub record IsStorable (d : Document) : Type 0 where
  pub doc_id_fits : d.doc_id < 2 ^ 32
  pub path_id_fits : d.path_id < 2 ^ 32
  pub size_fits : d.size < 2 ^ 64
  pub mtime_fits : d.mtime < 2 ^ 64
  pub flags_fits : d.flags < 2 ^ 16
  pub segment_id_fits : d.segment_id < 2 ^ 16

try_from-code : (l : Language) → or_unknown (try_from (code l)) ≡ l
unfolding try_from
try_from-code Language.unknown = refl
try_from-code Language.rust = refl
try_from-code Language.python = refl
try_from-code Language.java_script = refl
try_from-code Language.type_script = refl
try_from-code Language.go = refl
try_from-code Language.c = refl
try_from-code Language.cpp = refl
try_from-code Language.java = refl
try_from-code Language.ruby = refl
try_from-code Language.shell = refl
try_from-code Language.markdown = refl
try_from-code Language.json = refl
try_from-code Language.yaml = refl
try_from-code Language.toml = refl
try_from-code Language.html = refl
try_from-code Language.css = refl
try_from-code Language.sql = refl
try_from-code Language.haskell = refl
try_from-code Language.scala = refl
try_from-code Language.kotlin = refl
try_from-code Language.swift = refl
try_from-code Language.php = refl
try_from-code Language.c_sharp = refl
try_from-code Language.elixir = refl
try_from-code Language.clojure = refl
try_from-code Language.lua = refl
try_from-code Language.perl = refl
try_from-code Language.r = refl
try_from-code Language.zig = refl
try_from-code Language.nim = refl
try_from-code Language.ocaml = refl

code-lt : (l : Language) → code l < 2 ^ 16
code-lt Language.unknown = omega arith
code-lt Language.rust = omega arith
code-lt Language.python = omega arith
code-lt Language.java_script = omega arith
code-lt Language.type_script = omega arith
code-lt Language.go = omega arith
code-lt Language.c = omega arith
code-lt Language.cpp = omega arith
code-lt Language.java = omega arith
code-lt Language.ruby = omega arith
code-lt Language.shell = omega arith
code-lt Language.markdown = omega arith
code-lt Language.json = omega arith
code-lt Language.yaml = omega arith
code-lt Language.toml = omega arith
code-lt Language.html = omega arith
code-lt Language.css = omega arith
code-lt Language.sql = omega arith
code-lt Language.haskell = omega arith
code-lt Language.scala = omega arith
code-lt Language.kotlin = omega arith
code-lt Language.swift = omega arith
code-lt Language.php = omega arith
code-lt Language.c_sharp = omega arith
code-lt Language.elixir = omega arith
code-lt Language.clojure = omega arith
code-lt Language.lua = omega arith
code-lt Language.perl = omega arith
code-lt Language.r = omega arith
code-lt Language.zig = omega arith
code-lt Language.nim = omega arith
code-lt Language.ocaml = omega arith

pow_suc : (n : ℕ) → 256 ^ suc n ≡ 256 ^ n * 256
pow_suc n = pow-suc 256 n

pub read_le-to_le :
    (n v : ℕ) (rest : List ℕ) → v < 256 ^ n → read_le n (to_le n v ++ rest) ≡ some (v, rest)
unfolding read_le to_le
read_le-to_le zero v rest h = ground arith
read_le-to_le (suc n) v rest h =
    let tail = read_le-to_le n (v / 256) rest (omega (arith, pow_suc n)) in
    let whole : v % 256 + 256 * (v / 256) ≡ v = omega arith in rw (tail, whole) refl

read_document-write_document :
    (d : Document) (rest : List ℕ)
    → IsStorable d
    → read_document (write_document d ++ rest) ≡ some (d, rest)
unfolding read_document write_document
read_document-write_document d rest h =
    let bytes = λ (n v : ℕ) (r : List ℕ) (lt : v < 256 ^ n). read_le-to_le n v r lt in
    simp append_assoc (
      rw
        (
          bytes 4 d.doc_id _ (omega arith),
          bytes 4 d.path_id _ (omega arith),
          bytes 8 d.size _ (omega arith),
          bytes 8 d.mtime _ (omega arith),
          bytes 2 (code d.language) _ (code-lt d.language),
          bytes 2 d.flags _ (omega arith),
          bytes 2 d.segment_id _ (omega arith),
          try_from-code d.language,
        )
        refl)

read_each-write_each :
    (ds : List Document) (rest : List ℕ)
    → All IsStorable ds
    → read_each (length ds) (write_each ds ++ rest) ≡ some (ds, rest)
unfolding read_each write_each
read_each-write_each [] rest h = refl
read_each-write_each (d ∷ ds) rest (h, hs) = simp append_assoc (
    rw (read_document-write_document d (write_each ds ++ rest) h, read_each-write_each ds rest hs)
      refl)

-- docs.bin gives back the documents that were written to it, if there are fewer than 2 ^ 32 and
-- their fields fit their widths.
pub read_documents-write_documents :
    (ds : List Document)
    → All IsStorable ds
    → length ds < 2 ^ 32
    → read_documents (write_documents ds) ≡ some ds
unfolding read_documents write_documents
read_documents-write_documents ds h n =
    let small : length ds % 2 ^ 32 ≡ length ds = omega arith in
    let count = read_le-to_le 4 (length ds) (write_each ds) (omega arith) in
    let each = rw (append-nil (write_each ds)) at (read_each-write_each ds [] h) in
    rw (small, count, each) refl
