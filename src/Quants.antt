-- ===== src/Quants.antt =====
-- src/nn/nn-quants.hpp and nn-quants.cpp: the number formats and the division of work over threads.
pub mod Threads
pub use Formats.*
mod Formats
mod Examples
