-- ===== src/Utils/Trigram/Windows.antt =====
-- Trigrams as numbers of three bytes.
use fxi.Base.{ℕ, ◌+◌, ◌*◌, ◌/◌, ◌%◌, ◌^◌, ◌<◌, ◌≡◌, refl, ◌∙◌, arith, bit_or, List, [], ◌∷◌, All}
use fxi.Base.Bits.{bit_or_high, bit_or_comm, bit_and_ones}
use fxi.Utils.Tokenizer.{u32}
use fxi.Utils.Trigram.{bytes_to_trigram, trigram_to_bytes, trigrams_of}

abbrev pub AreBytes : List ℕ → Type 0
AreBytes bytes = All (λ b. b < 256) bytes

pub bytes_to_trigram_lem :
    (a b c : ℕ) → a < 256 → b < 256 → c < 256 → bytes_to_trigram a b c ≡ a * 65536 + b * 256 + c
unfolding bytes_to_trigram
bytes_to_trigram_lem a b c ha hb hc =
    let first : u32 (a * 2 ^ 16) ≡ a * 2 ^ 16 = omega arith in
    let second : u32 (b * 2 ^ 8) ≡ b * 2 ^ 8 = omega arith in
    let upper : bit_or (a * 2 ^ 16) (b * 2 ^ 8) ≡ b * 2 ^ 8 + a * 2 ^ 16 =
      bit_or_comm (a * 2 ^ 16) (a * 2 ^ 16) (b * 2 ^ 8) (omega arith)
      ∙ bit_or_high 16 (b * 2 ^ 8) a (omega arith) in
    let both : b * 2 ^ 8 + a * 2 ^ 16 ≡ (a * 256 + b) * 2 ^ 8 = omega arith in
    rw (first, second, upper, both)
      (omega (
        arith,
        bit_or_comm ((a * 256 + b) * 2 ^ 8) ((a * 256 + b) * 2 ^ 8) c (omega arith),
        bit_or_high 8 c (a * 256 + b) hc,
      ))

pub trigram_to_bytes_lem : (t : ℕ) → trigram_to_bytes t ≡ (t / 65536 % 256, t / 256 % 256, t % 256)
unfolding trigram_to_bytes
trigram_to_bytes_lem t =
    let twice : (x : ℕ) → x % 256 % 256 ≡ x % 256 = λ x. omega arith in
    rw
      (
        bit_and_ones 8 (t / 65536),
        bit_and_ones 8 (t / 256),
        bit_and_ones 8 t,
        twice (t / 65536),
        twice (t / 256),
        twice t,
      )
      refl

-- The bytes of the trigram of three bytes are these bytes.
pub trigram_to_bytes-bytes_to_trigram :
    (a b c : ℕ)
    → a < 256
    → b < 256
    → c < 256
    → trigram_to_bytes (bytes_to_trigram a b c) ≡ (a, b, c)
trigram_to_bytes-bytes_to_trigram a b c ha hb hc =
    let t : bytes_to_trigram a b c ≡ a * 65536 + b * 256 + c =
      bytes_to_trigram_lem a b c ha hb hc in
    let first : (a * 65536 + b * 256 + c) / 65536 % 256 ≡ a = omega arith in
    let second : (a * 65536 + b * 256 + c) / 256 % 256 ≡ b = omega arith in
    let third : (a * 65536 + b * 256 + c) % 256 ≡ c = omega arith in
    rw (t, trigram_to_bytes_lem (a * 65536 + b * 256 + c), first, second, third) refl

pub trigrams_of-bounded :
    (bytes : List ℕ) → AreBytes bytes → All (λ t. t < 2 ^ 24) (trigrams_of bytes)
unfolding trigrams_of
trigrams_of-bounded [] h = tt
trigrams_of-bounded (a ∷ []) h = tt
trigrams_of-bounded (a ∷ b ∷ []) h = tt
trigrams_of-bounded (a ∷ b ∷ c ∷ rest) (ha, (hb, (hc, h))) = (
  omega (arith, bytes_to_trigram_lem a b c ha hb hc),
  trigrams_of-bounded (b ∷ c ∷ rest) (hb, (hc, h)),
)
