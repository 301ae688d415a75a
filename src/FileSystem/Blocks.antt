-- ===== src/FileSystem/Blocks.antt =====
-- Allocation of data blocks: FileSystem::Alloc and FileSystem::Free of UNIXV6PP/FileSystem.cc.
-- The stack `s_free` holds up to 100 block numbers; its bottom entry is 0 or a block that holds
-- the next count and stack.
use secondfs_module.Prelude.{
  ℕ, ◌+◌, true, false, Option, none, some, Result, value, error, Run, done, out_of_bounds, blocked,
  leb, ◌==◌, if◌then◌else◌, s32_neg, s32_le_zero, inc32, dec32, update, not, ◌&&◌,
}
use secondfs_module.Block.{Block, zero_block, word, put_word, put_words}
use secondfs_module.BufferIo.{Buf, BufferIo}
use secondfs_module.FileSystem.SuperBlock.{SuperBlock, stack_size}

-- `BufferManager::ClrBuf`
unfoldable pub clr_buf : Buf → Buf
clr_buf b = record b { b_addr = zero_block }

-- The count and the stack as Free writes them into a block: 4 + 400 bytes.
unfoldable pub pack_group : Block → ℕ → (ℕ → ℕ) → Block
pack_group b count stack = put_words (put_word b 0 count) 1 stack_size stack

module _ (io : BufferIo) where
  open io use {Pool, bread, get_blk, brelse, bwrite}

  -- What Alloc returns: the buffer of the new block or NULL, and the state.
  abbrev pub Allocated : Type 0
  Allocated = Option Buf × SuperBlock × Pool

  unfoldable pub alloc_buf : ℕ → SuperBlock → Pool → Run Allocated
  alloc_buf blkno sb p =
      let (buf, p') = get_blk blkno p in
      done (some (clr_buf buf), record sb { s_flock = false; s_fmod = 1 }, p')

  unfoldable pub alloc_group : ℕ → SuperBlock → Result Buf × Pool → Run Allocated
  unfolding alloc_buf
  alloc_group blkno sb (error e, p) = done (none, record sb { s_flock = false }, p)
  alloc_group blkno sb (value buf, p) =
      alloc_buf blkno
        (record sb { s_nfree = word buf.b_addr 0; s_free = λ i. word buf.b_addr (i + 1) })
        (brelse buf p)

  unfoldable pub alloc_block : ℕ → SuperBlock → Pool → Run Allocated
  unfolding alloc_group alloc_buf
  alloc_block blkno sb p =
      if blkno == 0
      then done (none, record sb { s_nfree = 1; s_flock = false }, p)
      else if s32_le_zero sb.s_nfree
      then alloc_group blkno sb (bread blkno p)
      else alloc_buf blkno sb p

  unfoldable pub alloc_pop : SuperBlock → Pool → Run Allocated
  unfolding alloc_block
  alloc_pop sb p =
      if leb stack_size sb.s_nfree then out_of_bounds else alloc_block (sb.s_free sb.s_nfree) sb p

  -- `FileSystem::Alloc`
  unfoldable pub alloc : SuperBlock → Pool → Run Allocated
  unfolding alloc_pop
  alloc sb p =
      if sb.s_flock
      then blocked
      else alloc_pop (record sb { s_flock = true; s_nfree = dec32 sb.s_nfree }) p

  -- What Free returns: 0 or the errno of the write, and the state.
  abbrev pub Freed : Type 0
  Freed = ℕ × SuperBlock × Pool

  -- "Releasing the first free block into fast stack"
  unfoldable pub free_first : SuperBlock → SuperBlock
  free_first sb =
      if s32_le_zero sb.s_nfree
      then record sb { s_nfree = 1; s_free = update sb.s_free 0 0 }
      else sb

  unfoldable pub free_written : SuperBlock → ℕ × Pool → Freed
  free_written sb (ret, p) = (ret, record sb { s_nfree = 0 }, p)

  unfoldable pub free_group : SuperBlock → Buf × Pool → Freed
  unfolding pack_group free_written
  free_group sb (buf, p) =
      free_written sb
        (bwrite (record buf { b_addr = pack_group buf.b_addr stack_size sb.s_free }) p)

  -- "The fast stack in SuperBlock is full": it moves into the block that is given back.
  unfoldable pub free_full : ℕ → SuperBlock → Pool → Freed
  unfolding free_group
  free_full blkno sb p =
      if leb stack_size sb.s_nfree && not (s32_neg sb.s_nfree)
      then free_group (record sb { s_nfree = stack_size }) (get_blk blkno p)
      else (0, sb, p)

  unfoldable pub free_push : ℕ → Freed → Run Freed
  free_push blkno (ret, sb, p) =
      if leb stack_size sb.s_nfree
      then out_of_bounds
      else done (
        ret,
        record sb {
          s_free = update sb.s_free sb.s_nfree blkno;
          s_nfree = inc32 sb.s_nfree;
          s_flock = false;
          s_fmod = 1;
        },
        p,
      )

  -- `FileSystem::Free`
  unfoldable pub free : SuperBlock → ℕ → Pool → Run Freed
  unfolding free_first free_full free_push
  free sb blkno p =
      if sb.s_flock
      then blocked
      else free_push blkno
          (free_full blkno (free_first (record sb { s_fmod = 1; s_flock = true })) p)
