-- ===== src/Tools/Volume.antt =====
-- The structures that mkfs.c and fsck.c exchange with the device: the super block, the i-node and
-- the entries of a directory, as the words or bytes that stand in memory.
pub mod Image
use secondfs_module.Prelude.{ℕ, ◌+◌, ◌-◌, ◌*◌, ◌/◌, ◌%◌, ltb, ◌==◌, if◌then◌else◌}
use secondfs_module.Block.{Block, word, byte_of}
use secondfs_module.File.Locate.{DirectoryEntry, entry_size}
use secondfs_module.Tools.Transfer.{FastStack, stack_word}

-- `SuperBlock` of the tools
pub record SuperBlock : Type 0 where
  pub s_isize : ℕ
  pub s_fsize : ℕ
  pub s_free : FastStack
  pub s_inode : FastStack
  pub s_has_dots : ℕ
  pub s_ilock_obsolete : ℕ
  pub s_fmod : ℕ
  pub s_ronly : ℕ
  pub s_time : ℕ
  pub padding : ℕ → ℕ

-- `sizeof(SuperBlock)`
abbrev pub super_block_size : ℕ
super_block_size = 1024

-- Its 256 words.
unfoldable pub super_block_word : SuperBlock → ℕ → ℕ
unfolding stack_word
super_block_word sb i =
    if i == 0
    then sb.s_isize
    else if i == 1
    then sb.s_fsize
    else if ltb i 103
    then stack_word sb.s_free (i - 2)
    else if ltb i 204
    then stack_word sb.s_inode (i - 103)
    else if i == 204
    then sb.s_has_dots
    else if i == 205
    then sb.s_ilock_obsolete
    else if i == 206
    then sb.s_fmod
    else if i == 207
    then sb.s_ronly
    else if i == 208
    then sb.s_time
    else sb.padding (i - 209)

-- `DiskInode`
pub record DiskInode : Type 0 where
  pub d_mode : ℕ
  pub d_nlink : ℕ
  pub d_uid : ℕ
  pub d_gid : ℕ
  pub d_size : ℕ
  pub d_addr : ℕ → ℕ
  pub d_atime : ℕ
  pub d_mtime : ℕ

-- `sizeof(DiskInode)`
abbrev pub disk_inode_size : ℕ
disk_inode_size = 64

-- Its 16 words; two of the fields have 16 bits.
unfoldable pub disk_inode_word : DiskInode → ℕ → ℕ
disk_inode_word di i =
    if i == 0
    then di.d_mode
    else if i == 1
    then di.d_nlink
    else if i == 2
    then di.d_uid + 65536 * di.d_gid
    else if i == 3
    then di.d_size
    else if ltb i 14
    then di.d_addr (i - 4)
    else if i == 14
    then di.d_atime
    else di.d_mtime

-- Byte `k` of an entry.
unfoldable pub entry_byte : DirectoryEntry → ℕ → ℕ
unfolding byte_of
entry_byte de k = if ltb k 4 then byte_of de.m_ino k else de.m_name (k - 4)
