-- ===== src/Fs.antt =====
-- xv6/kernel/fs.c above the log: path names and directories, and the bitmap of free blocks.
pub mod Path
pub mod Directory
pub mod Bitmap
