-- ===== src/File.antt =====
-- The class FileManager of UNIXV6PP/FileOperations.cc.
pub mod Rdwr
pub mod Locate
