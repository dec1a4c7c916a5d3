-- ===== src/Store.antt =====
-- internal/store: the device states and the locks that are kept in memory.
pub mod Locker
pub mod Memory
