-- ===== src/Database.antt =====
-- src/rocksdb-cache.cpp: the keys under which the records of the prefix cache lie in the database.
pub mod Keys
mod Examples
