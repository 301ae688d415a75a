-- ===== src/FileSystem/Sync.antt =====
-- The exchange of the super block with the sectors 200 and 201: FileSystem::LoadSuperBlock and
-- FileSystem::Update of UNIXV6PP/FileSystem.cc.
pub mod Laws
use secondfs_module.Prelude.{
  ℕ, ◌+◌, ◌-◌, ◌*◌, ◌%◌, Bool, true, false, Result, value, error, leb, ltb, ◌==◌, if◌then◌else◌,
  s32_neg, not, ◌&&◌, ◌||◌,
}
use secondfs_module.Block.{Block, word, put_words}
use secondfs_module.BufferIo.{Buf, BufferIo}
use secondfs_module.FileSystem.SuperBlock.{SuperBlock, stack_size}

abbrev pub super_block_sector_number : ℕ
super_block_sector_number = 200

-- `EINVAL`
abbrev pub einval : ℕ
einval = 22

-- Word `i` of the 256 words that the structure keeps on the disk.
unfoldable pub super_word : SuperBlock → ℕ → ℕ
super_word sb i =
    if i == 0
    then sb.s_isize
    else if i == 1
    then sb.s_fsize
    else if i == 2
    then sb.s_nfree
    else if ltb i 103
    then sb.s_free (i - 3)
    else if i == 103
    then sb.s_ninode
    else if ltb i 204
    then sb.s_inode (i - 104)
    else if i == 204
    then sb.s_has_dots
    else if i == 205
    then sb.s_ilock_obsolete
    else if i == 206
    then sb.s_fmod
    else if i == 207
    then sb.s_ronly
    else if i == 208
    then sb.s_time
    else sb.padding (i - 209)

-- A word of the structure after block `i` is copied over its bytes `512 i` to `512 i + 511`.
unfoldable pub loaded : Block → ℕ → ℕ → ℕ → ℕ
loaded blk i at_word old =
    if leb (i * 128) at_word && ltb at_word (i * 128 + 128)
    then word blk (at_word - i * 128)
    else old

-- `memcpy(p, pBuf->b_addr, SECONDFS_BLOCK_SIZE)`
unfoldable pub load_block : ℕ → Block → SuperBlock → SuperBlock
unfolding loaded
load_block i blk sb = record sb {
  s_isize = loaded blk i 0 sb.s_isize;
  s_fsize = loaded blk i 1 sb.s_fsize;
  s_nfree = loaded blk i 2 sb.s_nfree;
  s_free = λ k. loaded blk i (k + 3) (sb.s_free k);
  s_ninode = loaded blk i 103 sb.s_ninode;
  s_inode = λ k. loaded blk i (k + 104) (sb.s_inode k);
  s_has_dots = loaded blk i 204 sb.s_has_dots;
  s_ilock_obsolete = loaded blk i 205 sb.s_ilock_obsolete;
  s_fmod = loaded blk i 206 sb.s_fmod;
  s_ronly = loaded blk i 207 sb.s_ronly;
  s_time = loaded blk i 208 sb.s_time;
  padding = λ k. loaded blk i (k + 209) (sb.padding k);
}

-- The checks of the two counts, and the time stamp.
unfoldable pub validate : ℕ → SuperBlock → ℕ × SuperBlock
validate now sb =
    if s32_neg sb.s_nfree || not (leb sb.s_nfree 100)
    then (einval, sb)
    else if s32_neg sb.s_ninode || not (leb sb.s_ninode 100)
    then (einval, sb)
    else (0, record sb { s_time = now })

-- `now` is `ktime_get_real_seconds()` as a 32-bit word.
module _ (io : BufferIo) (now : ℕ) where
  open io use {Pool, bread, get_blk, brelse, bwrite, bflush}

  -- The second round of the loop, and the checks.
  unfoldable pub load_second : SuperBlock → Result Buf × Pool → ℕ × SuperBlock × Pool
  unfolding load_block validate
  load_second sb (error e, p) = (e, sb, p)
  load_second sb (value buf, p) =
      let (ret, sb') = validate now (load_block 1 buf.b_addr sb) in (ret, sb', brelse buf p)

  unfoldable pub load_first : SuperBlock → Result Buf × Pool → ℕ × SuperBlock × Pool
  unfolding load_second load_block
  load_first sb (error e, p) = (e, sb, p)
  load_first sb (value buf, p) =
      load_second (load_block 0 buf.b_addr sb)
        (bread (super_block_sector_number + 1) (brelse buf p))

  -- `FileSystem::LoadSuperBlock`: 0 or the errno, and the state.
  unfoldable pub load_super_block : SuperBlock → Pool → ℕ × SuperBlock × Pool
  unfolding load_first
  load_super_block sb p = load_first sb (bread super_block_sector_number p)

  -- `memcpy(pBuf->b_addr, p, SECONDFS_BLOCK_SIZE)`
  unfoldable pub super_image : ℕ → SuperBlock → Block → Block
  unfolding super_word
  super_image j sb old = put_words old 0 128 (λ i. super_word sb (j * 128 + i))

  -- After the write of the first round: `goto out` on an error, else `goto flush_out`; the loop has
  -- no second round.
  unfoldable pub update_written : ℕ × Pool → Pool
  update_written (ret, p) = if ret == 0 then bflush p else p

  unfoldable pub update_buf : SuperBlock → Buf × Pool → Pool
  unfolding update_written super_image
  update_buf sb (buf, p) =
      update_written (bwrite (record buf { b_addr = super_image 0 sb buf.b_addr }) p)

  -- `FileSystem::Update`. The update lock is given back on every way out that took it.
  unfoldable pub update_super_block : SuperBlock → Pool → SuperBlock × Pool
  unfolding update_buf
  update_super_block sb p =
      if sb.s_update_lock
      then (sb, p)
      else if (sb.s_fmod == 0) || sb.s_ilock || sb.s_flock
      then (sb, p)
      else let sb' : SuperBlock = record sb { s_fmod = 0; s_time = now } in
        (sb', update_buf sb' (get_blk super_block_sector_number p))
