-- ===== src/Fs.antt =====
-- fs.c: blocks and their bitmap, the content of inodes, the cache of inodes, directories, paths.
pub mod Blocks
pub mod Bytes
pub mod Inode
pub mod Cache
pub mod Directory
pub mod Path
pub mod Namex
pub mod Tests
