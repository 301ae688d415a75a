-- ===== src/FileSystem/Inodes.antt =====
-- Allocation of i-nodes: FileSystem::IAlloc and FileSystem::IFree of UNIXV6PP/FileSystem.cc.
pub mod Stack
pub mod Scan
pub mod Zone
use secondfs_module.Prelude.{
  ℕ, zero, suc, ◌+◌, ◌*◌, Bool, true, false, Option, none, some, Result, value, error, Run, done,
  out_of_bounds, blocked, ◌>>=◌, leb, ◌==◌, if◌then◌else◌, s32_neg, s32_le_zero, inc32, dec32,
  update, not, ◌&&◌,
}
use secondfs_module.Block.{Block, word}
use secondfs_module.BufferIo.{Buf, BufferIo}
use secondfs_module.FileSystem.SuperBlock.{SuperBlock, stack_size}
use secondfs_module.Inode.Node.{Inode, set_flag, ialloc_flag}

abbrev pub inode_zone_start_sector : ℕ
inode_zone_start_sector = 202

abbrev pub inode_number_per_sector : ℕ
inode_number_per_sector = 8

-- `sizeof(DiskInode) / sizeof(s32)`
abbrev pub inode_words : ℕ
inode_words = 16

-- `FileSystem::IFree`
unfoldable pub ifree : SuperBlock → ℕ → SuperBlock
ifree sb number = if sb.s_ilock then sb else if leb stack_size sb.s_ninode then sb else record sb {
  s_inode = update sb.s_inode sb.s_ninode number;
  s_ninode = inc32 sb.s_ninode;
  s_fmod = 1;
}

-- `s_inode[s_ninode] = ino; s_ninode++`
unfoldable pub record_inode : ℕ → SuperBlock → Run SuperBlock
record_inode ino sb =
    if leb stack_size sb.s_ninode
    then out_of_bounds
    else done
        (record sb { s_inode = update sb.s_inode sb.s_ninode ino; s_ninode = inc32 sb.s_ninode })

-- `in_use` says whether the system has an i-node of that number in memory
-- (`secondfs_c_helper_ilookup_without_iget`).
module _ (io : BufferIo) (in_use : ℕ → Bool) where
  open io use {Pool, bread, brelse}

  -- The loop over the i-nodes `j`, `j + 1`, ... of one sector; `ino` is the number of the first.
  unfoldable pub scan_sector : ℕ → ℕ → ℕ → Block → SuperBlock → Run SuperBlock
  unfolding record_inode
  scan_sector zero j ino blk sb = done sb
  scan_sector (suc n) j ino blk sb = elim ((word blk (j * inode_words) == 0) && not (in_use ino)) [
    | true ↦ record_inode ino sb >>= λ sb'. elim (leb stack_size sb'.s_ninode) [
      | true ↦ done sb'
      | false ↦ scan_sector n (j + 1) (ino + 1) blk sb'
    ]
    | false ↦ scan_sector n (j + 1) (ino + 1) blk sb
  ]

  -- One round of the loop over the sectors, the buffer given back.
  unfoldable pub scan_buf : ℕ → Result Buf × Pool → SuperBlock → Run (SuperBlock × Pool)
  unfolding scan_sector
  scan_buf ino (error e, p) sb = out_of_bounds
  scan_buf ino (value buf, p) sb =
      scan_sector inode_number_per_sector 0 ino buf.b_addr sb >>= λ sb'. done (sb', brelse buf p)

  -- The loop over the sectors `i`, `i + 1`, ... of the i-node zone.
  unfoldable pub scan_zone : ℕ → ℕ → ℕ → SuperBlock → Pool → Run (SuperBlock × Pool)
  unfolding scan_buf
  scan_zone zero i ino sb p = done (sb, p)
  scan_zone (suc n) i ino sb p =
      scan_buf ino (bread (inode_zone_start_sector + i) p) sb >>= λ (sb', p').
      elim (leb stack_size sb'.s_ninode) [
        | true ↦ done (sb', p')
        | false ↦ scan_zone n (i + 1) (ino + inode_number_per_sector) sb' p'
      ]

  -- The stack is filled if it is empty.
  unfoldable pub fill_stack : SuperBlock → Pool → Run (SuperBlock × Pool)
  fill_stack sb p =
      if s32_le_zero sb.s_ninode
      then scan_zone (if s32_neg sb.s_isize then 0 else sb.s_isize) 0 0 sb p
      else done (sb, p)

  -- The new i-node under the number from the top of the stack; `new_inode` is what
  -- `secondfs_c_helper_new_inode` returns.
  unfoldable pub name_inode : Option Inode → ℕ → Option Inode
  name_inode none ino = none
  name_inode (some node) ino =
      if in_use ino
      then none
      else some (record node { i_mode = set_flag node.i_mode ialloc_flag; i_number = ino })

  unfoldable pub ialloc_pop :
      Option Inode → SuperBlock → Pool → Run (Option Inode × SuperBlock × Pool)
  unfolding name_inode
  ialloc_pop new_inode sb p =
      if leb stack_size sb.s_ninode
      then out_of_bounds
      else done (name_inode new_inode (sb.s_inode sb.s_ninode), sb, p)

  -- What follows the search: NULL, with the lock still held, if the stack is empty after it.
  unfoldable pub ialloc_filled :
      Option Inode → Bool → SuperBlock × Pool → Run (Option Inode × SuperBlock × Pool)
  unfolding ialloc_pop
  ialloc_filled new_inode searched (sb, p) =
      if searched && (sb.s_ninode == 0)
      then done (none, sb, p)
      else ialloc_pop new_inode (record sb { s_ilock = false; s_ninode = dec32 sb.s_ninode }) p

  -- `FileSystem::IAlloc`
  unfoldable pub ialloc : Option Inode → SuperBlock → Pool → Run (Option Inode × SuperBlock × Pool)
  unfolding fill_stack ialloc_filled
  ialloc new_inode sb p =
      if sb.s_ilock
      then blocked
      else fill_stack (record sb { s_ilock = true }) p
        >>= ialloc_filled new_inode (s32_le_zero sb.s_ninode)
