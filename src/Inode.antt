-- ===== src/Inode.antt =====
-- The class Inode of UNIXV6PP/Inode.cc.
pub mod Node
pub mod Bmap
pub mod ReadWrite
pub mod Trunc
pub mod Disk
