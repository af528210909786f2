-- ===== src/Fs.antt =====
-- fs/: a file system in a file of the host. Bytes is memory and its layout, State what the functions
-- work on, and the others are named for the files of fs/ that they model.
mod Tests
pub mod Bytes
pub mod State
pub mod Block
pub mod Super
pub mod Inode
pub mod ReadWrite
pub mod Dir
pub mod Command
pub mod Number
pub mod File
