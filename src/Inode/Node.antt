-- ===== src/Inode/Node.antt =====
-- The in-memory and the on-disk i-node of UNIXV6PP/Inode.hh. A field is the 32-bit (uid, gid: 16-bit)
-- pattern that stands in the structure.
pub use secondfs_module.Prelude.{set_flag, has_flag}
use secondfs_module.Prelude.{ℕ, Bool, false, minus_one}

pub record Inode : Type 0 where
  pub i_flag : ℕ
  pub i_mode : ℕ
  pub i_count : ℕ
  pub i_nlink : ℕ
  pub i_number : ℕ
  pub i_uid : ℕ
  pub i_gid : ℕ
  pub i_size : ℕ
  pub i_addr : ℕ → ℕ
  pub i_lastr : ℕ
  pub i_atime : ℕ
  pub i_mtime : ℕ
  pub i_lock : Bool

-- `i_flag`
abbrev pub ilock : ℕ
ilock = 0x1

abbrev pub iupd : ℕ
iupd = 0x2

abbrev pub iacc : ℕ
iacc = 0x4

abbrev pub iwant : ℕ
iwant = 0x10

-- `i_mode`
abbrev pub ialloc_flag : ℕ
ialloc_flag = 0x8000

abbrev pub ifmt : ℕ
ifmt = 0x6000

abbrev pub ifchr : ℕ
ifchr = 0x2000

abbrev pub ifblk : ℕ
ifblk = 0x6000

-- `-1` in a 16-bit field.
abbrev pub minus_one16 : ℕ
minus_one16 = 0xffff

-- `Inode::Inode`; the two times are left as they were in memory.
unfoldable pub inode : ℕ → ℕ → Inode
inode atime mtime = record {
  i_flag = 0;
  i_mode = 0;
  i_count = 1;
  i_nlink = 1;
  i_number = minus_one;
  i_uid = minus_one16;
  i_gid = minus_one16;
  i_size = 0;
  i_addr = λ i. 0;
  i_lastr = minus_one;
  i_atime = atime;
  i_mtime = mtime;
  i_lock = false;
}

-- `Inode::Clean`
unfoldable pub clean : Inode → Inode
clean i = record i {
  i_mode = 0;
  i_nlink = 0;
  i_uid = minus_one16;
  i_gid = minus_one16;
  i_size = 0;
  i_lastr = minus_one;
  i_addr = λ k. 0;
}
