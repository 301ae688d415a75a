-- ===== src/Examples/Inodes.antt =====
-- The theorems on IAlloc and IFree at concrete inputs, on the buffer cache of the program.
use secondfs_module.Prelude.{
  ℕ, ◌≡◌, ◌⊎◌, refl, none, some, Option, arith, blocked, Returns, false, update, Run, done,
}
use secondfs_module.Block.{Block, word}
use secondfs_module.Cache.Pool.{Pool}
use secondfs_module.Cache.Queue.{search, not_avail, brelse}
use secondfs_module.Cache.GetBlk.{get_blk, io_done, adopt}
use secondfs_module.Cache.Transfer.{bread, read_in}
use secondfs_module.Cache.Io.{parted, read_out, on_buf, found_buf}
use secondfs_module.FileSystem.Inodes.{ialloc, ifree}
use secondfs_module.FileSystem.Inodes.Stack.{numbered, ialloc-ifree}
use secondfs_module.FileSystem.Inodes.Zone.{
  available, Found, Exhausted, ServesZone, ialloc-search, ialloc_exhausted-blocked,
}
use secondfs_module.Inode.Node.{Inode}
use secondfs_module.Examples.Data.{good, no_block, disk, ready, super_block, file}

-- The two sectors of the i-node zone are read one after the other.
serves : ServesZone good no_block disk 2 0 (ready disk)
unfolding parted read_out on_buf found_buf bread get_blk search not_avail brelse io_done adopt
    read_in update
serves = (refl, (refl, tt))

ialloc-search_example :
    Returns
      (λ (r, sb, p).
        Found good no_block disk 16 file (r, sb, p) ⊎ Exhausted good no_block disk 16 (r, sb, p))
      (ialloc good no_block (some file) (super_block 1 0 0) (ready disk))
ialloc-search_example =
    ialloc-search good no_block disk file (super_block 1 0 0) (ready disk) refl refl (omega arith)
      serves

-- Every i-node on the disk has a mode.
abbrev full_disk : ℕ → Block
full_disk n i = 1

all_taken : (ino : ℕ) → available full_disk no_block 16 ino ≡ false
unfolding word
all_taken ino = ground arith

serves_full : ServesZone good no_block full_disk 2 0 (ready full_disk)
unfolding parted read_out on_buf found_buf bread get_blk search not_avail brelse io_done adopt
    read_in update
serves_full = (refl, (refl, tt))

ialloc_exhausted-blocked_example :
    Returns
      (λ (r, sb, p).
        (r ≡ none)
        × ((other : Option Inode) (q : Run (Pool (ℕ → Block)))
            → ialloc good no_block other sb q ≡ blocked)
        × ((n : ℕ) → ifree sb n ≡ sb))
      (ialloc good no_block (some file) (super_block 1 0 0) (ready full_disk))
ialloc_exhausted-blocked_example =
    ialloc_exhausted-blocked good no_block full_disk file (super_block 1 0 0) (ready full_disk) refl
      refl (omega arith) serves_full all_taken

ialloc-ifree_example :
    ialloc good no_block (some file) (ifree (super_block 1 0 2) 9) (ready disk)
    ≡ done (
      some (numbered file 9),
      record (super_block 1 0 2) {
        s_inode = update (super_block 1 0 2).s_inode 2 9;
        s_ninode = 2;
        s_fmod = 1;
        s_ilock = false;
      },
      ready disk,
    )
ialloc-ifree_example =
    ialloc-ifree good no_block file (super_block 1 0 2) (ready disk) 9 refl (omega arith) refl
