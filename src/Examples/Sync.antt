-- ===== src/Examples/Sync.antt =====
-- The theorems on LoadSuperBlock and Update at concrete inputs, on the buffer cache of the program.
use secondfs_module.Prelude.{◌≡◌, refl, arith, update, leb, ◌&&◌, if◌then◌else◌}
use secondfs_module.Block.{Block}
use secondfs_module.Cache.Queue.{search, not_avail, brelse}
use secondfs_module.Cache.GetBlk.{get_blk, io_done, adopt, bwrite}
use secondfs_module.Cache.Transfer.{bread, read_in}
use secondfs_module.Cache.Io.{parted, read_out, got, on_buf, found_buf}
use secondfs_module.FileSystem.Sync.{load_super_block, update_super_block, super_word}
use secondfs_module.FileSystem.Sync.Laws.{
  stamped, FirstWords, Reloaded, Serves, first_half, both_halves, load-update, load-validates,
}
use secondfs_module.Examples.Data.{good, ready, disk, super_block}

super_block-FirstWords : FirstWords (stamped 77 (super_block 2 0 1))
unfolding super_word
super_block-FirstWords i h = ground arith

-- The bytes that Update writes.
abbrev written : Block
written = (first_half good 77 (super_block 2 0 1) (ready disk)).b_addr

write_succeeds :
    (good.bwrite
      (first_half good 77 (super_block 2 0 1) (ready disk))
      (good.get_blk 200 (ready disk)).1).0
    ≡ 0
unfolding parted read_out on_buf found_buf bread get_blk search not_avail brelse io_done adopt
    read_in update got bwrite
write_succeeds = refl

serves : Serves good 77 written (disk 201) (ready (update disk 200 written))
unfolding parted read_out on_buf found_buf bread get_blk search not_avail brelse io_done adopt
    read_in update
serves = (refl, refl)

load-update_example :
    (update_super_block good 77 (super_block 2 0 1) (ready disk) ≡ (
      stamped 77 (super_block 2 0 1),
      good.bflush
          (good.bwrite
            (first_half good 77 (super_block 2 0 1) (ready disk))
            (good.get_blk 200 (ready disk)).1).1,
    ))
    × ((load_super_block good 77 (super_block 1 0 0) (ready (update disk 200 written))).0 ≡ 0)
    × Reloaded
        (super_block 2 0 1)
        (load_super_block good 77 (super_block 1 0 0) (ready (update disk 200 written))).1
        (disk 201)
load-update_example =
    load-update good 77 (super_block 2 0 1) (super_block 1 0 0) (disk 201) (ready disk)
      (ready (update disk 200 written)) refl (ground arith) refl refl (omega arith) (omega arith)
      super_block-FirstWords write_succeeds serves

Serves-blank : Serves good 77 (disk 200) (disk 201) (ready disk)
unfolding parted read_out on_buf found_buf bread get_blk search not_avail brelse io_done adopt
    read_in update
Serves-blank = (refl, refl)

load-validates_example : (load_super_block good 77 (super_block 1 0 0) (ready disk)).0 ≡ (
    if leb (both_halves good 77 (disk 200) (disk 201) (super_block 1 0 0)).s_nfree 100
      && leb (both_halves good 77 (disk 200) (disk 201) (super_block 1 0 0)).s_ninode 100
    then 0
    else 22)
load-validates_example =
    load-validates good 77 (disk 200) (disk 201) (super_block 1 0 0) (ready disk) Serves-blank
