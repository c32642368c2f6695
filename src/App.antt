-- ===== src/App.antt =====
-- src/app.cpp: the root that leads the passes, the workers that follow, and the packet between them.
pub mod Packet
pub mod Root
pub mod Worker
pub mod Session
mod Examples
