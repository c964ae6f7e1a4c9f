-- ===== src/Utils/Trigram/Strategies.antt =====
-- The strategies of extract_trigrams for contents of different lengths give the same trigrams.
use fxi.Base.{
  ℕ, ◌≡◌, refl, subst, ◌∙◌, arith, true, ◌||◌, List, [], ◌∷◌, ◌++◌, length, ltb, ◌==◌, Bool-cases,
  inl, inr,
}
use fxi.Base.Keys.{nat_eq, mem, mem-append}
use fxi.Base.Sorting.{sort, mem-sort, mem-dedup}
use fxi.Query.Text.{Str}
use fxi.Utils.Tokenizer.{as_bytes}
use fxi.Utils.Trigram.{trigrams_of, insert_each, HashOrder, extract_trigrams, query_trigrams}
use fxi.Utils.Trigram.Full.{mem-set_all_new}
use fxi.Utils.Trigram.Sparse.{mem-test_and_set_all}
use fxi.Utils.Trigram.Windows.{AreBytes, trigrams_of-bounded}

mem-insert_each :
    (n : ℕ) (ts seen : List ℕ) → mem n (insert_each ts seen) ≡ (mem n seen || mem n ts)
mem-insert_each n [] seen = ground arith
mem-insert_each n (t ∷ ts) seen = elim (Bool-cases (mem t seen)) [
  | inl e ↦
      let ih = mem-insert_each n ts seen in
      rw (e, ih)
        (elim (Bool-cases (n == t)) [
          | inl same ↦
              let is : t ≡ n = ground arith in
              let there = subst (λ j. mem j seen ≡ true) is e in ground arith
          | inr other ↦ ground arith
        ])
  | inr e ↦
      let ih = mem-insert_each n ts (seen ++ (t ∷ [])) in
      rw (e, ih, mem-append n seen (t ∷ [])) (ground arith)
]

trigrams_short : (bytes : List ℕ) → ltb (length bytes) 3 ≡ true → trigrams_of bytes ≡ []
unfolding trigrams_of
trigrams_short [] h = refl
trigrams_short (a ∷ []) h = refl
trigrams_short (a ∷ b ∷ []) h = refl
trigrams_short (a ∷ b ∷ c ∷ rest) h = absurd (ground arith)

-- Let the content be bytes. Whatever its length, and in whatever order a hash set and a hash map are
-- gone through, a trigram is extracted from it exactly if it is one of its windows of three bytes.
pub mem-extract_trigrams :
    (order : HashOrder) (content : List ℕ)
    → AreBytes content
    → (n : ℕ) → mem n (extract_trigrams order content) ≡ mem n (trigrams_of content)
unfolding extract_trigrams
mem-extract_trigrams order content are n =
    let ts = trigrams_of content in
    let small = trigrams_of-bounded content are in
    elim (Bool-cases (ltb (length content) 3)) [
      | inl short ↦ rw (short, trigrams_short content short) refl
      | inr long ↦ elim (Bool-cases (ltb (length content) 4096)) [
        | inl few ↦ rw (long, few) (mem-dedup n (sort ts) ∙ mem-sort n ts)
        | inr more ↦ elim (Bool-cases (ltb (length content) 100000)) [
          | inl medium ↦
              rw (long, more, medium)
                (HashOrder.mem-set_order order n (insert_each ts []) ∙ mem-insert_each n ts [])
          | inr larger ↦ elim (Bool-cases (ltb (length content) 1000000)) [
            | inl large ↦ rw (long, more, larger, large) (mem-test_and_set_all order n ts small)
            | inr very ↦ rw (long, more, larger, very) (mem-set_all_new n ts small)
          ]
        ]
      ]
    ]

pub mem-query_trigrams :
    (query : Str) (n : ℕ) → mem n (query_trigrams query) ≡ mem n (trigrams_of (as_bytes query))
unfolding query_trigrams
mem-query_trigrams query n =
    let ts = trigrams_of (as_bytes query) in
    elim (Bool-cases (ltb (length (as_bytes query)) 3)) [
      | inl short ↦ rw (short, trigrams_short (as_bytes query) short) refl
      | inr long ↦ rw long (mem-dedup n (sort ts) ∙ mem-sort n ts)
    ]
