-- ===== src/Core.antt =====
-- src/nn/nn-core.hpp and nn-core.cpp: sizes, slices of a tensor for each node, and how they are cut.
pub mod Sizes
pub mod Pointers
pub mod Config
pub mod Builder
pub mod OpQuant
pub mod Slices
pub mod Split
mod Examples
