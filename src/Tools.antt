-- ===== src/Tools.antt =====
-- The tools in user space: mkfs.c formats a device file, fsck.c examines it.
pub mod Device
pub mod Transfer
pub mod Volume
pub mod Mkfs
pub mod Fsck
pub mod Memory
