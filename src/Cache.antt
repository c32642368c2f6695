-- ===== src/Cache.antt =====
-- src/nn/nn-cache.hpp and nn-cache.cpp: which prefixes of earlier prompts are kept, and where.
pub mod Tokens
pub mod Trie
pub mod Table
pub mod Manager
mod Examples
