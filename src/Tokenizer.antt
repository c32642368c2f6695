-- ===== src/Tokenizer.antt =====
-- src/tokenizer.cpp: the vocabulary and the encoder.
pub mod Vocab
pub mod Encode
pub mod EosDetector
mod Examples
