-- ===== src/FileSystem/Space.antt =====
-- What Alloc and Free of UNIXV6PP/FileSystem.cc do to the list of free blocks.
pub mod Alloc
pub mod Free
