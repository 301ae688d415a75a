-- ===== src/FileSystem.antt =====
-- The class FileSystem of UNIXV6PP/FileSystem.cc: the in-memory super block, the allocation of
-- blocks and i-nodes, and the exchange of the super block with the disk.
pub mod SuperBlock
pub mod Blocks
pub mod FreeList
pub mod Space
pub mod Inodes
pub mod Sync
