-- ===== src/Ipc.antt =====
-- Communication between processes: the files of src/ipc/.
pub mod Pipe
pub mod Signal
