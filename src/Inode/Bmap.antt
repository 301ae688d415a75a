-- ===== src/Inode/Bmap.antt =====
-- Inode::Bmap of UNIXV6PP/Inode.cc: from a logical block of a file to a block of the disk, which is
-- allocated where there is none.
pub mod Index
use secondfs_module.Prelude.{
  ℕ, ◌+◌, ◌-◌, ◌*◌, ◌/◌, ◌%◌, Option, none, some, Result, value, error, Run, done, out_of_bounds,
  bug, ◌>>=◌, leb, ltb, ◌==◌, if◌then◌else◌, s32_neg, update,
}
use secondfs_module.Block.{Block, word, put_word, address_per_index_block}
use secondfs_module.BufferIo.{Buf, BufferIo}
use secondfs_module.FileSystem.SuperBlock.{SuperBlock}
use secondfs_module.FileSystem.Blocks.{alloc}
use secondfs_module.Inode.Node.{Inode, set_flag, iupd}

abbrev pub small_file_block : ℕ
small_file_block = 6

abbrev pub large_file_block : ℕ
large_file_block = 262

abbrev pub huge_file_block : ℕ
huge_file_block = 33030

-- The entry of `i_addr` through which a block from 6 on is found.
unfoldable pub addr_index : ℕ → ℕ
addr_index lbn =
    if ltb lbn large_file_block
    then (lbn - small_file_block) / address_per_index_block + 6
    else (lbn - large_file_block) / (address_per_index_block * address_per_index_block) + 8

-- The entry of the second-level table.
unfoldable pub second_index : ℕ → ℕ
second_index lbn = (lbn - large_file_block) / address_per_index_block % address_per_index_block

-- The entry of the table that holds the number of the data block.
unfoldable pub table_index : ℕ → ℕ
table_index lbn =
    if ltb lbn large_file_block
    then (lbn - small_file_block) % address_per_index_block
    else (lbn - large_file_block) % address_per_index_block

-- What a call on an i-node works on: the i-node, the super block, the buffers, and `Inode::rablock`.
pub record State (Pool : Type 0) : Type 0 where
  pub node : Inode
  pub super : SuperBlock
  pub pool : Pool
  pub rablock : ℕ

-- `i_addr[k] = blkno`
unfoldable pub set_addr : Inode → ℕ → ℕ → Inode
set_addr node k blkno = record node { i_addr = update node.i_addr k blkno }

-- `i_flag |= IUPD`
unfoldable pub mark_updated : Inode → Inode
mark_updated node = record node { i_flag = set_flag node.i_flag iupd }

module _ (io : BufferIo) where
  open io use {Pool, bread, brelse, bdwrite, bflush}

  abbrev pub Fs : Type 0
  Fs = State Pool

  -- `fileSys.Alloc(this->i_ssb)`
  unfoldable pub alloc_in : Fs → Run (Option Buf × Fs)
  alloc_in s = alloc io s.super s.pool >>= λ (r, sb, p). done (r, record s { super = sb; pool = p })

  -- A read whose result is not checked: an error pointer is followed.
  unfoldable pub read_table : ℕ → Fs → Run (Buf × Fs)
  read_table blkno s = elim (bread blkno s.pool).0 [
    | value buf ↦ done (buf, record s { pool = (bread blkno s.pool).1 })
    | error e ↦ out_of_bounds
  ]

  unfoldable pub give_back : Buf → Fs → Fs
  give_back buf s = record s { pool = brelse buf s.pool }

  unfoldable pub write_later : Buf → Fs → Fs
  write_later buf s = record s { pool = bdwrite buf s.pool }

  -- The block number 0 stands for a failure.
  unfoldable pub bmap_flush : ℕ → ℕ → Fs → Run (ℕ × Fs)
  bmap_flush phy_blkno ra s = done (phy_blkno, record s { rablock = ra; pool = bflush s.pool })

  unfoldable pub direct_new : ℕ → Option Buf × Fs → Run (ℕ × Fs)
  unfolding mark_updated set_addr write_later bmap_flush
  direct_new lbn (none, s) = done (0, s)
  direct_new lbn (some buf, s) =
      bmap_flush buf.b_blkno 0
        (write_later buf (record s { node = mark_updated (set_addr s.node lbn buf.b_blkno) }))

  -- "small file": the number stands in `i_addr`.
  unfoldable pub bmap_direct : ℕ → Fs → Run (ℕ × Fs)
  unfolding direct_new bmap_flush
  bmap_direct lbn s =
      if s.node.i_addr lbn == 0
      then alloc_in s >>= direct_new lbn
      else bmap_flush (s.node.i_addr lbn) 0 s

  -- The data block `buf` is entered in the table.
  unfoldable pub last_new : ℕ → Buf → Option Buf × Fs → Run (ℕ × Fs)
  unfolding give_back write_later bmap_flush
  last_new index table (none, s) = done (0, give_back table s)
  last_new index table (some buf, s) =
      let table' : Buf = record table { b_addr = put_word table.b_addr index buf.b_blkno } in
      bmap_flush buf.b_blkno
        (if ltb (index + 1) address_per_index_block then word table'.b_addr (index + 1) else 0)
        (write_later table' (write_later buf s))

  -- The data block through the held table.
  unfoldable pub bmap_last : ℕ → Buf × Fs → Run (ℕ × Fs)
  unfolding last_new give_back bmap_flush
  bmap_last index (table, s) =
      if word table.b_addr index == 0
      then alloc_in s >>= last_new index table
      else bmap_flush (word table.b_addr index)
          (if ltb (index + 1) address_per_index_block then word table.b_addr (index + 1) else 0)
          (give_back table s)

  unfoldable pub second_new : ℕ → ℕ → Buf → Option Buf × Fs → Run (ℕ × Fs)
  unfolding give_back write_later
  second_new lbn index first (none, s) = done (0, give_back first s)
  second_new lbn index first (some second, s) =
      bmap_last (table_index lbn) (
        second,
        write_later (record first { b_addr = put_word first.b_addr index second.b_blkno }) s,
      )

  -- "huge file": the table is found through the held second-level table.
  unfoldable pub bmap_second : ℕ → Buf × Fs → Run (ℕ × Fs)
  unfolding second_new give_back
  bmap_second lbn (first, s) =
      if word first.b_addr (second_index lbn) == 0
      then alloc_in s >>= second_new lbn (second_index lbn) first
      else read_table (word first.b_addr (second_index lbn)) (give_back first s)
        >>= bmap_last (table_index lbn)

  unfoldable pub bmap_table : ℕ → Buf × Fs → Run (ℕ × Fs)
  bmap_table lbn held =
      if leb 8 (addr_index lbn) then bmap_second lbn held else bmap_last (table_index lbn) held

  unfoldable pub first_new : ℕ → Option Buf × Fs → Run (ℕ × Fs)
  unfolding set_addr
  first_new lbn (none, s) = done (0, s)
  first_new lbn (some buf, s) =
      bmap_table lbn (buf, record s { node = set_addr s.node (addr_index lbn) buf.b_blkno })

  -- "large file" and "huge file": through the table that `i_addr` names.
  unfoldable pub bmap_indirect : ℕ → Fs → Run (ℕ × Fs)
  unfolding first_new mark_updated
  bmap_indirect lbn s =
      if s.node.i_addr (addr_index lbn) == 0
      then alloc_in (record s { node = mark_updated s.node }) >>= first_new lbn
      else read_table (s.node.i_addr (addr_index lbn)) s >>= bmap_table lbn

  -- `Inode::Bmap`; `lbn` is the bit pattern of an `int`.
  unfoldable pub bmap : ℕ → Fs → Run (ℕ × Fs)
  bmap lbn s =
      if s32_neg lbn
      then out_of_bounds
      else if leb huge_file_block lbn
      then bug
      else if ltb lbn small_file_block
      then bmap_direct lbn s
      else bmap_indirect lbn s
