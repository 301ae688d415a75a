-- ===== src/FileSystem/SuperBlock.antt =====
-- The in-memory super block of UNIXV6PP/FileSystem.hh. A field is the 32-bit word that stands in
-- the structure, read in the byte order of the disk; a lock is whether it is held.
use secondfs_module.Prelude.{ℕ, Bool}

pub record SuperBlock : Type 0 where
  pub s_isize : ℕ
  pub s_fsize : ℕ
  pub s_nfree : ℕ
  pub s_free : ℕ → ℕ
  pub s_ninode : ℕ
  pub s_inode : ℕ → ℕ
  pub s_has_dots : ℕ
  pub s_ilock_obsolete : ℕ
  pub s_fmod : ℕ
  pub s_ronly : ℕ
  pub s_time : ℕ
  pub padding : ℕ → ℕ
  pub s_update_lock : Bool
  pub s_flock : Bool
  pub s_ilock : Bool

-- The length of `s_free` and of `s_inode`.
abbrev pub stack_size : ℕ
stack_size = 100
