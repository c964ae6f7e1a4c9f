-- ===== src/Utils.antt =====
-- src/utils: the tokenizer and the trigrams.
pub mod Tokenizer
pub mod Trigram
mod Runs
