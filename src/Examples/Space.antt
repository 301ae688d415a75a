-- ===== src/Examples/Space.antt =====
-- The theorems on Alloc and Free at concrete inputs, on the buffer cache of the program.
use secondfs_module.Prelude.{
  ℕ, ◌≡◌, refl, none, some, false, value, error, Run, done, arith, [], ◌∷◌, Returns, out_of_bounds,
  update,
}
use secondfs_module.Block.{Block, zero_block, word, put_word, byte_of}
use secondfs_module.FileSystem.Blocks.{alloc, free, clr_buf}
use secondfs_module.FileSystem.FreeList.{FreeList, bottom, group}
use secondfs_module.FileSystem.Space.Alloc.{HandsOut, alloc-cons, alloc_twice-error}
use secondfs_module.FileSystem.Space.Free.{TakesBack, free-cons, alloc-free}
use secondfs_module.Cache.Pool.{Pool}
use secondfs_module.Cache.Queue.{search, not_avail, brelse}
use secondfs_module.Cache.GetBlk.{get_blk, io_done, adopt}
use secondfs_module.Cache.Transfer.{bread, read_in}
use secondfs_module.Cache.Io.{parted, read_out}
use secondfs_module.Examples.Data.{good, cache, ready, block_300, disk, super_block}

-- One free block, 300, on whose place the next group is.
one_free : FreeList disk 1 (super_block 1 300 0).s_free (300 ∷ [])
unfolding word update put_word byte_of zero_block
one_free = group refl (ground arith) (bottom refl)

reads_300 : (good.bread 300 (ready disk)).0 ≡ value (record { b_blkno = 300; b_addr = disk 300 })
unfolding parted read_out bread get_blk search not_avail brelse io_done adopt read_in update
reads_300 = refl

alloc-cons_example :
    Returns
      (HandsOut good disk (super_block 1 300 0) (ready disk) 300 [])
      (alloc good (super_block 1 300 0) (ready disk))
alloc-cons_example =
    alloc-cons good disk (super_block 1 300 0) (ready disk) 300 [] one_free refl (λ e. reads_300)

fails_300 : ((cache block_300).bread 300 (ready disk)).0 ≡ error 5
unfolding parted read_out bread get_blk search not_avail brelse io_done adopt read_in update
fails_300 = refl

alloc_twice-error_example :
    Returns
      (λ (r, sb, p).
        (r ≡ none)
        × (sb.s_nfree ≡ 0)
        × ((q : Run (Pool (ℕ → Block))) → alloc (cache block_300) sb q ≡ out_of_bounds))
      (alloc (cache block_300) (super_block 1 300 0) (ready disk))
alloc_twice-error_example =
    alloc_twice-error (cache block_300) (super_block 1 300 0) (ready disk) 300 5 refl refl refl
      (ground arith) fails_300

free-cons_example :
    Returns
      (TakesBack good disk (super_block 1 0 0) (ready disk) 302 [])
      (free good (super_block 1 0 0) 302 (ready disk))
free-cons_example =
    free-cons good disk (super_block 1 0 0) (ready disk) 302 [] (bottom refl) refl (ground arith)
      refl (λ i h. ground arith)

alloc-free_example :
    Returns
      (λ (ret, sb, p).
        alloc good sb p
        ≡ done (
          some (clr_buf (good.get_blk 302 (ready disk)).0),
          record (super_block 1 0 0) {
            s_free = update (super_block 1 0 0).s_free 1 302;
            s_nfree = 1;
            s_flock = false;
            s_fmod = 1;
          },
          (good.get_blk 302 (ready disk)).1,
        ))
      (free good (super_block 1 0 0) 302 (ready disk))
alloc-free_example =
    alloc-free good (super_block 1 0 0) (ready disk) 302 refl (omega arith) (omega arith)
      (ground arith)
