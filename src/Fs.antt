-- ===== src/Fs.antt =====
-- The file systems: the files of src/fs/.
pub mod Bio
