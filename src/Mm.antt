-- ===== src/Mm.antt =====
-- Memory management: src/mm/.
pub mod Buddy
pub mod Kalloc
pub mod Vm
pub mod Vma
use lkc.Base.{ℕ}

-- PGSIZE of include/lib/riscv.h
abbrev pub pgsize : ℕ
pgsize = 4096
