-- ===== src/Index/SegmentFiles/Grams.antt =====
-- A trigram lookup in the files of a segment finds the documents that were written to them.
use fxi.Base.{
  ℕ, suc, ◌+◌, ◌^◌, ◌≤◌, ◌<◌, ◌≡◌, refl, sym, subst, ap, ◌∙◌, arith, Bool, true, false, Option,
  some, List, [], ◌∷◌, ◌++◌, length, length-append, All, ◌==◌, if◌then◌else◌, Bool-cases, inl, inr,
}
use fxi.Base.Keys.{nat_eq, mem, find}
use fxi.Encoding.Bitmap.{Bitmap}
use fxi.Query.Sets.{Sets}
use fxi.Utils.Tokenizer.{u32}
use fxi.Index.Delta.{or_empty}
use fxi.Index.Documents.{to_le}
use fxi.Index.Documents.Stored.{read_le-to_le}
use fxi.Index.Postings.{Entry, Dictionary, get_docs}
use fxi.Index.Postings.Lookups.{get_docs-has_posting}
use fxi.Index.SegmentFiles.{encode_postings}
use fxi.Index.SegmentFiles.Dictionaries.{
  GramEntry, is_stop, omit_stop_grams, write_grams, write_trigram_index, read_gram, read_grams,
  read_trigram_dict, u64,
}
use fxi.Index.SegmentFiles.Layout.{layout, contents, AllIds, listed_in-layout}

-- The dictionary of a segment, on the file of its postings.
abbrev pub entries_of : List GramEntry → List (ℕ × Entry)
entries_of [] = []
entries_of (g ∷ gs) =
    (g.trigram, record { offset = g.offset; entry_length = g.entry_length }) ∷ entries_of gs

abbrev pub gram_dictionary : List GramEntry → List ℕ → Dictionary ℕ
gram_dictionary gs postings = record { entries = entries_of gs; postings = postings }

abbrev pub AreTrigrams : List (ℕ × List ℕ) → Type 0
AreTrigrams postings = All (λ (p : ℕ × List ℕ). p.0 < 2 ^ 32) postings

write_grams-contents :
    (offset : ℕ) (postings : List (ℕ × List ℕ))
    → (write_grams offset postings).1 ≡ contents postings
unfolding write_grams contents
write_grams-contents offset [] = refl
write_grams-contents offset ((t, ids) ∷ postings) =
    let encoded = (encode_postings ids).0 in
    ap (λ bytes. encoded ++ bytes) (write_grams-contents (u64 (offset + length encoded)) postings)

read_gram-write :
    (t offset len freq : ℕ) (rest : List ℕ)
    → t < 2 ^ 32
    → offset < 2 ^ 64
    → len < 2 ^ 32
    → read_gram
        (to_le 4 t ++ (to_le 8 offset ++ (to_le 4 (u32 len) ++ (to_le 4 (u32 freq) ++ rest))))
      ≡ some
          (record { trigram = t; offset = offset; entry_length = len; doc_freq = u32 freq }, rest)
unfolding read_gram
read_gram-write t offset len freq rest ht ho hl =
    let same : u32 len ≡ len = omega arith in
    let bytes = λ (n v : ℕ) (r : List ℕ) (lt : v < 256 ^ n). read_le-to_le n v r lt in
    rw
      (
        same,
        bytes 4 t _ (omega arith),
        bytes 8 offset _ (omega arith),
        bytes 4 len _ (omega arith),
        bytes 4 (u32 freq) rest (omega arith),
      )
      refl

write_grams_cons :
    (offset t : ℕ) (ids : List ℕ) (postings : List (ℕ × List ℕ))
    → (write_grams offset ((t, ids) ∷ postings)).0
      ≡ to_le 4 t
        ++ (to_le 8 offset
            ++ (to_le 4 (u32 (length (encode_postings ids).0))
                ++ (to_le 4 (u32 (encode_postings ids).1)
                    ++ (write_grams (u64 (offset + length (encode_postings ids).0)) postings).0)))
unfolding write_grams
write_grams_cons offset t ids postings = refl

read_grams_cons :
    (n : ℕ) (bytes rest : List ℕ) (entry : GramEntry) (gs : List GramEntry)
    → read_gram bytes ≡ some (entry, rest)
    → read_grams n rest ≡ some gs
    → read_grams (suc n) bytes ≡ some (entry ∷ gs)
unfolding read_grams
read_grams_cons n bytes rest entry gs first more = rw (first, more) refl

read_grams-write_grams :
    (offset : ℕ) (postings : List (ℕ × List ℕ))
    → AreTrigrams postings
    → offset + length (contents postings) < 2 ^ 32
    → (gs : List GramEntry) × (read_grams (length postings) (write_grams offset postings).0
        ≡ some gs)
      × (entries_of gs ≡ layout offset postings)
unfolding layout contents read_grams
read_grams-write_grams offset [] are small = ([], refl, refl)
read_grams-write_grams offset ((t, ids) ∷ postings) (is, are) small =
    let encoded = (encode_postings ids).0 in
    let freq = (encode_postings ids).1 in
    let total = length-append encoded (contents postings) in
    let next : u64 (offset + length encoded) ≡ offset + length encoded = omega arith in
    let rest = (write_grams (u64 (offset + length encoded)) postings).0 in
    let (gs, run, same) =
      read_grams-write_grams (offset + length encoded) postings are (omega arith) in
    let entry : GramEntry = record {
      trigram = t;
      offset = offset;
      entry_length = length encoded;
      doc_freq = u32 freq;
    } in
    (
      entry ∷ gs,
      subst (λ b. read_grams (suc (length postings)) b ≡ some (entry ∷ gs))
          (sym (write_grams_cons offset t ids postings))
          (read_grams_cons (length postings) _ rest entry gs
            (read_gram-write t offset (length encoded) freq rest is (omega arith) (omega arith))
            (subst (λ n. read_grams (length postings) (write_grams n postings).0 ≡ some gs)
              (sym next) run)),
      rw same refl,
    )

find-omit_stop_grams :
    (stop_grams : Option (List ℕ)) (t : ℕ) (postings : List (ℕ × List ℕ))
    → or_empty (find t (omit_stop_grams stop_grams postings))
      ≡ (if is_stop stop_grams t then [] else or_empty (find t postings))
unfolding omit_stop_grams
find-omit_stop_grams stop_grams t [] = elim (Bool-cases (is_stop stop_grams t)) [
  | inl e ↦ rw e refl
  | inr e ↦ rw e refl
]
find-omit_stop_grams stop_grams t ((k, ids) ∷ postings) =
    let ih = find-omit_stop_grams stop_grams t postings in
    elim (Bool-cases (t == k)) [
      | inl same ↦
          let one : k ≡ t = ground arith in
          elim (Bool-cases (is_stop stop_grams t)) [
            | inl e ↦ let left : is_stop stop_grams k ≡ true = rw one e in rw (left, ih, e) refl
            | inr e ↦ let kept : is_stop stop_grams k ≡ false = rw one e in rw (kept, same, e) refl
          ]
      | inr other ↦ elim (Bool-cases (is_stop stop_grams k)) [
        | inl e ↦ rw (e, other) ih
        | inr e ↦ rw (e, other) ih
      ]
    ]

-- What the filter leaves is as wide and no longer.
filtered-AreTrigrams :
    (stop_grams : Option (List ℕ)) (postings : List (ℕ × List ℕ))
    → AreTrigrams postings
    → AllIds postings
    → AreTrigrams (omit_stop_grams stop_grams postings)
      × AllIds (omit_stop_grams stop_grams postings)
      × (length (omit_stop_grams stop_grams postings) ≤ length postings)
unfolding omit_stop_grams
filtered-AreTrigrams stop_grams [] are ids = (tt, tt, omega arith)
filtered-AreTrigrams stop_grams ((k, xs) ∷ postings) (is, are) (all, ids) =
    let (more, all_more, le) = filtered-AreTrigrams stop_grams postings are ids in
    elim (Bool-cases (is_stop stop_grams k)) [
      | inl e ↦ rw e (more, all_more, omega arith)
      | inr e ↦ rw e ((is, more), (all, all_more), omega arith)
    ]

mem-if :
    (d : ℕ) (b : Bool) (xs : List ℕ)
    → mem d (if b then [] else xs) ≡ (if b then false else mem d xs)
mem-if d true xs = refl
mem-if d false xs = refl

module _ (roaring : Bitmap) (sets : Sets) (of_bitmap : Bitmap.B roaring → Sets.B sets)
    (as_bitmap : Sets.B sets → Bitmap.B roaring)
    (of_agrees : (b : Bitmap.B roaring) (d : ℕ)
      → Sets.contains sets (of_bitmap b) d ≡ Bitmap.contains roaring b d)
    (as_agrees : (b : Sets.B sets) (d : ℕ)
      → Bitmap.contains roaring (as_bitmap b) d ≡ Sets.contains sets b d) where
  -- Let the two kinds of bitmap hold the same documents, and let the trigrams and the ids fit 32 bits,
  -- with fewer than 2 ^ 32 trigrams and a postings file of fewer than 2 ^ 32 bytes. Then grams.dict
  -- can be read back, and a lookup in what was read finds the documents that stand under the trigram
  -- in the postings that were written, and none for a stop-gram.
  pub get_docs-write_trigram_index :
      (postings : List (ℕ × List ℕ)) (stop_grams : Option (List ℕ)) (t d : ℕ)
      → AreTrigrams postings
      → AllIds postings
      → length postings < 2 ^ 32
      → length (write_trigram_index postings stop_grams).1 < 2 ^ 32
      → (gs : List GramEntry) × (read_trigram_dict
            (some (write_trigram_index postings stop_grams).0)
          ≡ some gs)
        × (Sets.contains sets
              (get_docs roaring sets of_bitmap as_bitmap
                (gram_dictionary gs (write_trigram_index postings stop_grams).1)
                t)
              d
            ≡ (if is_stop stop_grams t then false else mem d (or_empty (find t postings))))
  unfolding write_trigram_index read_trigram_dict
  get_docs-write_trigram_index postings stop_grams t d are ids few small =
      let filtered = omit_stop_grams stop_grams postings in
      let (fit, all, le) = filtered-AreTrigrams stop_grams postings are ids in
      let written = write_grams-contents 0 filtered in
      let (gs, run, same) =
        read_grams-write_grams 0 filtered fit (omega (arith, ap (λ b. length b) written)) in
      let count : u32 (length filtered) ≡ length filtered = omega arith in
      (
        gs,
        rw (count, read_le-to_le 4 (length filtered) (write_grams 0 filtered).0 (omega arith)) run,
        get_docs-has_posting roaring sets of_bitmap as_bitmap of_agrees as_agrees
              (gram_dictionary gs (write_grams 0 filtered).1) t d
            ∙ rw (written, same)
                (listed_in-layout d t [] filtered all
                  ∙ ap (λ xs. mem d xs) (find-omit_stop_grams stop_grams t postings)
                  ∙ mem-if d (is_stop stop_grams t) (or_empty (find t postings))),
      )
