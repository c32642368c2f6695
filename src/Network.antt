-- ===== src/Network.antt =====
-- src/nn/nn-network.cpp: the sockets, the messages that configure a worker, and the synchronization.
pub mod Stream
pub mod Sockets
pub mod Enums
pub mod Wire
pub mod Config
pub mod Weights
pub mod Loader
pub mod Sync
mod Examples
