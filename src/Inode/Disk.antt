-- ===== src/Inode/Disk.antt =====
-- The on-disk i-node: Inode::IUpdate and Inode::ICopy of UNIXV6PP/Inode.cc, and the mutex of an
-- i-node: Inode::NFlock and Inode::NFrele. A sector holds 8 i-nodes of 16 words.
pub mod Laws
use secondfs_module.Prelude.{
  ℕ, ◌+◌, ◌-◌, ◌*◌, ◌/◌, ◌%◌, true, false, Result, value, error, Run, done, out_of_bounds, blocked,
  ltb, ◌==◌, if◌then◌else◌, s32_neg, clear_flag,
}
use secondfs_module.Block.{Block, word, put_words}
use secondfs_module.BufferIo.{Buf, BufferIo}
use secondfs_module.FileSystem.Inodes.{
  inode_zone_start_sector, inode_number_per_sector, inode_words,
}
use secondfs_module.Inode.Node.{Inode, set_flag, has_flag, iupd, iacc, ilock, iwant}
use secondfs_module.Inode.Bmap.{Fs, State}

-- Word `k` of a `DiskInode` that is made of the in-memory i-node; word 2 holds `d_uid` and `d_gid`.
unfoldable pub disk_word : Inode → ℕ → ℕ
disk_word node k =
    if k == 0
    then node.i_mode
    else if k == 1
    then node.i_nlink
    else if k == 2
    then node.i_uid + 65536 * node.i_gid
    else if k == 3
    then node.i_size
    else if ltb k 14
    then node.i_addr (k - 4)
    else if k == 14
    then node.i_atime
    else node.i_mtime

-- The first word of i-node `number` in its sector.
abbrev pub first_word : ℕ → ℕ
first_word number = number % inode_number_per_sector * inode_words

-- The sector of i-node `number`.
abbrev pub inode_sector : ℕ → ℕ
inode_sector number = inode_zone_start_sector + number / inode_number_per_sector

-- `Inode::ICopy`
unfoldable pub icopy : Block → ℕ → Inode → Inode
icopy b inumber node =
    let base = first_word inumber in
    record node {
      i_mode = word b base;
      i_nlink = word b (base + 1);
      i_uid = word b (base + 2) % 65536;
      i_gid = word b (base + 2) / 65536;
      i_size = word b (base + 3);
      i_mtime = word b (base + 15);
      i_atime = word b (base + 14);
      i_addr = λ i. word b (base + (i + 4));
    }

-- The sector with the i-node put in.
unfoldable pub inode_image : Inode → Block → Block
unfolding disk_word
inode_image node old = put_words old (first_word node.i_number) 16 (disk_word node)

-- `Inode::NFlock`; a lock that another process holds is waited for.
unfoldable pub nf_lock : Inode → Run Inode
nf_lock node =
    if node.i_lock
    then blocked
    else done (record node { i_lock = true; i_flag = set_flag node.i_flag ilock })

-- `Inode::NFrele`
unfoldable pub nf_rele : Inode → Inode
nf_rele node =
    let flag = clear_flag node.i_flag ilock in
    record node {
      i_flag = if has_flag flag iwant then clear_flag flag iwant else flag;
      i_lock = false;
    }

module _ (io : BufferIo) where
  open io use {Pool, bread, bwrite, bflush}

  unfoldable pub iupdate_written : Fs io → ℕ × Pool → ℕ × Fs io
  iupdate_written s (ret, p) =
      if ret == 0 then (0, record s { pool = bflush p }) else (ret, record s { pool = p })

  unfoldable pub iupdate_buf : Fs io → Result Buf × Pool → ℕ × Fs io
  unfolding iupdate_written inode_image
  iupdate_buf s (error e, p) = (e, record s { pool = p })
  iupdate_buf s (value buf, p) =
      iupdate_written s (bwrite (record buf { b_addr = inode_image s.node buf.b_addr }) p)

  -- `Inode::IUpdate`: 0 or the errno, and the state.
  unfoldable pub iupdate : Fs io → Run (ℕ × Fs io)
  unfolding iupdate_buf
  iupdate s =
      if has_flag s.node.i_flag (set_flag iupd iacc)
      then (if s.super.s_ronly == 0
          then (if s32_neg s.node.i_number
              then out_of_bounds
              else done (iupdate_buf s (bread (inode_sector s.node.i_number) s.pool)))
          else done (0, s))
      else done (0, s)
