-- ===== src/Cpu.antt =====
-- src/nn/nn-cpu.cpp, the device that runs a node's operations on the CPU, with the tables and the
-- checks at the end of src/nn/nn-cpu-ops.cpp that decide which operations it takes.
pub mod Pointers
pub mod Kernels
pub mod Segments
pub mod Resolves
pub mod Created
pub mod Checked
pub mod Serves
pub mod Batches
pub mod SyncCache
pub mod RopeCache
mod Examples
