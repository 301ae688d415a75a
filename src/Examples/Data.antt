-- ===== src/Examples/Data.antt =====
-- The disk, the super block and the i-node of the examples.
use secondfs_module.Prelude.{ℕ, ◌+◌, ◌-◌, Run, done, ◌==◌, Bool, false, if◌then◌else◌, update}
use secondfs_module.Block.{Block, zero_block, put_word}
use secondfs_module.BufferIo.{BufferIo}
use secondfs_module.Cache.Pool.{Pool, BlockIo}
use secondfs_module.Cache.Io.{cached}
use secondfs_module.FileSystem.SuperBlock.{SuperBlock}
use secondfs_module.Inode.Node.{Inode}
use secondfs_module.Inode.Bmap.{Fs}

abbrev pub no_block : ℕ → Bool
no_block n = false

-- Block 300 is bad.
abbrev pub block_300 : ℕ → Bool
block_300 n = n == 300

-- A disk whose blocks in `bad` cannot be read or written.
abbrev pub disk_io : (ℕ → Bool) → BlockIo
disk_io bad = record {
  Disk = ℕ → Block;
  submit_read = λ dev n b d. if bad n then (5, b, d) else (0, d n, d);
  submit_write = λ dev n b d. if bad n then (5, d) else (0, update d n b);
}

-- The buffer cache as BufferManager.cc has it, on such a disk.
abbrev pub cache : (ℕ → Bool) → BufferIo
cache bad = cached (disk_io bad) 2 12

abbrev pub good : BufferIo
good = cache no_block

-- Three free Bufs, and no block of device 12 in one of them.
abbrev pub three_bufs : (ℕ → Block) → Pool (ℕ → Block)
three_bufs d = record {
  b_flags = λ i. 0;
  b_forw = λ i. if i == 12 then 12 else if i == 10 then 0 else if i == 2 then 10 else i + 1;
  b_back = λ i. if i == 12 then 12 else if i == 10 then 2 else if i == 0 then 10 else i - 1;
  av_forw = λ i. if i == 10 then 0 else if i == 2 then 10 else i + 1;
  av_back = λ i. if i == 10 then 2 else if i == 0 then 10 else i - 1;
  b_dev = λ i. 11;
  b_blkno = λ i. 0;
  b_index = λ i. i;
  b_addr = λ i j. 0;
  b_wait_free_lock = λ i. false;
  b_free_sema = 1;
  disk = d;
}

-- The cache before the first call, on the disk `d`.
abbrev pub ready : (ℕ → Block) → Run (Pool (ℕ → Block))
ready d = done (three_bufs d)

-- Block 300 holds a group of one entry, 0; all else is 0.
abbrev pub disk : ℕ → Block
disk = update (λ n. zero_block) 300 (put_word zero_block 0 1)

-- `nfree` entries, the bottom `below` and all others 301.
abbrev pub super_block : ℕ → ℕ → ℕ → SuperBlock
super_block nfree below ninode = record {
  s_isize = 2;
  s_fsize = 1000;
  s_nfree = nfree;
  s_free = λ i. if i == 0 then below else 301;
  s_ninode = ninode;
  s_inode = λ i. 5;
  s_has_dots = 0;
  s_ilock_obsolete = 0;
  s_fmod = 1;
  s_ronly = 0;
  s_time = 0;
  padding = λ i. 0;
  s_update_lock = false;
  s_flock = false;
  s_ilock = false;
}

-- A regular file of 1000 bytes in the blocks 400 and 401.
abbrev pub file : Inode
file = record {
  i_flag = 2;
  i_mode = 0;
  i_count = 1;
  i_nlink = 1;
  i_number = 3;
  i_uid = 7;
  i_gid = 8;
  i_size = 1000;
  i_addr = λ i. if i == 0 then 400 else if i == 1 then 401 else 0;
  i_lastr = 0;
  i_atime = 1;
  i_mtime = 2;
  i_lock = false;
}

abbrev pub state : Fs good
state = record { node = file; super = super_block 2 0 0; pool = ready disk; rablock = 0 }
