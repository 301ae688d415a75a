-- ===== src/Vfs.antt =====
-- The side of the VFS: inode.c, super.c and fileops.c.
pub mod Mode
pub mod Inode
pub mod Kernel
pub mod Super
pub mod Link
pub mod Create
pub mod Folder
pub mod Rename
pub mod FileCalls
pub mod Laws
