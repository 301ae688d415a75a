-- ===== src/Examples.antt =====
-- Concrete runs: a small disk, and the theorems at concrete inputs.
pub mod Bio
pub mod Data
pub mod Space
pub mod Inodes
pub mod Read
pub mod Sync
pub mod Names
pub mod Cache
pub mod Tools
pub mod Vfs
