-- ===== src/Examples/Vfs.antt =====
-- The i-node of a file on its way to the disk and back, at concrete inputs, on the buffer
-- cache of the program.
use secondfs_module.Prelude.{◌≡◌, value, update, ◌+◌, refl, false, arith, Returns}
use secondfs_module.Cache.Queue.{search, not_avail, brelse}
use secondfs_module.Cache.GetBlk.{get_blk, io_done, adopt}
use secondfs_module.Cache.Transfer.{bread, read_in}
use secondfs_module.Cache.Io.{parted, read_out, on_buf, found_buf}
use secondfs_module.Inode.Bmap.{Fs}
use secondfs_module.Inode.Disk.{disk_word, iupdate}
use secondfs_module.Inode.Disk.Laws.{IsStorable, Synced, iupdate-Synced}
use secondfs_module.Vfs.Mode.{mode_v2s, copy_permissions, copy_special}
use secondfs_module.Vfs.Inode.{file_operations, VfsInode, conform_v2s, evict_inode}
use secondfs_module.Vfs.Laws.{Fits, Evicted, evict_linked-Evicted}
use secondfs_module.Examples.Data.{good, ready, disk, file, state}

-- A regular file with the mode rw-r--r--.
abbrev pub vfs_file : VfsInode
vfs_file = record {
  i_ino = 3;
  i_mode = 0x8000 + 0x1a4;
  i_uid = 7;
  i_gid = 8;
  i_nlink = 1;
  i_size = 1000;
  i_atime = 1;
  i_mtime = 2;
  i_ctime = 5;
  i_blocks = 0;
  i_op = file_operations;
}

-- The i-node of the VFS before a file is read.
abbrev pub blank : VfsInode
blank = record vfs_file { i_mode = 0; i_size = 0; i_ino = 0 }

pub fits : Fits vfs_file 0x8000 0x1a4
fits = record {
  mode = refl;
  known = refl;
  bits = omega arith;
  ids = (omega arith, omega arith);
  nlink = omega arith;
  numbers = (omega arith, omega arith);
  times = (omega arith, omega arith, omega arith);
}

-- The i-node has just been allocated.
abbrev new_state : Fs good
new_state = record state { node = record file { i_mode = 0x8000; i_flag = 0 } }

conformed-IsStorable : IsStorable (conform_v2s file vfs_file).0
unfolding conform_v2s disk_word mode_v2s copy_permissions copy_special
conformed-IsStorable = record { ids = (omega arith, omega arith); words = λ k h. ground arith }

reads_sector : (good.bread 202 (ready disk)).0 ≡ value (record { b_blkno = 202; b_addr = disk 202 })
unfolding parted read_out on_buf found_buf bread get_blk search not_avail brelse io_done adopt
    read_in update
reads_sector = refl

iupdate-Synced_example :
    Returns
      (Synced good (record state { node = (conform_v2s file vfs_file).0 }) (disk 202))
      (iupdate good (record state { node = (conform_v2s file vfs_file).0 }))
unfolding conform_v2s
iupdate-Synced_example =
    iupdate-Synced good (record state { node = (conform_v2s file vfs_file).0 }) (disk 202)
      conformed-IsStorable refl refl refl reads_sector

evict_linked-Evicted_example :
    Returns
      (Evicted good (record state { node = (conform_v2s file vfs_file).0 }) (disk 202))
      (evict_inode good false vfs_file state)
unfolding conform_v2s
evict_linked-Evicted_example =
    evict_linked-Evicted good vfs_file state (disk 202) (λ e. ground arith) conformed-IsStorable
      refl refl refl reads_sector
