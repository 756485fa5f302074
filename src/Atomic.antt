-- ===== src/Atomic.antt =====
-- Synchronisation: src/atomic/.
pub mod Semaphore
pub mod Futex
