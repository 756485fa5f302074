-- ===== src/Proc.antt =====
-- Processes and threads: the files of src/proc/.
pub mod Sched
